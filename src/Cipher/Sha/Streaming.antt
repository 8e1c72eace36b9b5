-- ===== src/Cipher/Sha/Streaming.antt =====
-- `rc_sha256_update` in pieces: the hash depends on the bytes and not on how they were cut.
use robov.Prelude.{
  ℕ, zero, suc, ◌+◌, ◌-◌, ◌*◌, ◌/◌, ◌%◌, ◌<◌, ◌≤◌, ◌≡◌, refl, sym, ap, ap₂, ◌∙◌, List, [], ◌∷◌,
  ◌++◌, Bool-cases, inl, inr, if_true, if_false, ltb, arith, length, length-append, length-drop,
  take, drop, take_all, drop-length-append,
}
use robov.Cipher.Sha.{Sha, transform, absorb, fill, update_blocks, initial_words, sha_init}
use robov.Cipher.Sha.Blocks.{
  drop-drop, drop-append, absorb-append, absorb-add, take-fill, length-fill, fill_full,
}

-- The context after the bytes `d`: the whole blocks are absorbed, and the rest stands at the start of
-- the buffer.
pub record Holds (ctx : Sha) (d : List ℕ) : Type 0 where
  pub absorbed : ctx.state ≡ absorb (length d / 64) initial_words d
  pub counted : ctx.count ≡ length d
  pub pending : take (length d % 64) ctx.buffer ≡ drop (length d / 64 * 64) d
  pub size : length ctx.buffer ≡ 64

pub sha_init-Holds : Holds sha_init []
unfolding absorb
sha_init-Holds = record { absorbed = refl; counted = refl; pending = refl; size = refl }

-- Behind whole blocks.
module _ (ctx : Sha) (d p : List ℕ) (h : Holds ctx d) (aligned : length d % 64 ≡ 0) where
  rest : List ℕ
  rest = drop (length p / 64 * 64) p

  length-rest : length rest ≡ length p % 64
  unfolding rest
  length-rest = omega (arith, length-drop (length p / 64 * 64) p)

  blocks : length (d ++ p) / 64 ≡ length p / 64 + length d / 64
  blocks = omega (arith, length-append d p, aligned)

  blocks-state :
      absorb (length p / 64) ctx.state p ≡ absorb (length (d ++ p) / 64) initial_words (d ++ p)
  blocks-state =
      let whole : length d / 64 * 64 ≡ length d = omega (arith, aligned) in
      sym (
        ap (λ n. absorb n initial_words (d ++ p)) blocks
        ∙ absorb-add (length p / 64) (length d / 64) initial_words (d ++ p)
        ∙ ap₂ (absorb (length p / 64))
            (absorb-append (length d / 64) initial_words d p (omega (arith, whole))
              ∙ sym h.absorbed)
            (ap (λ n. drop n (d ++ p)) whole ∙ drop-length-append d p))

  rest-eq : rest ≡ drop (length (d ++ p) / 64 * 64) (d ++ p)
  unfolding rest
  rest-eq =
      let whole : length d / 64 * 64 ≡ length d = omega (arith, aligned) in
      let places : length p / 64 * 64 + length d ≡ length (d ++ p) / 64 * 64 =
        omega (arith, blocks, whole) in
      ap (drop (length p / 64 * 64)) (sym (drop-length-append d p))
      ∙ drop-drop (length p / 64 * 64) (length d) (d ++ p)
      ∙ ap (λ n. drop n (d ++ p)) places

  buffer-rest :
      (take (length (d ++ p) % 64) (update_blocks ctx p).buffer ≡ rest)
      × (length (update_blocks ctx p).buffer ≡ 64)
  unfolding update_blocks rest
  buffer-rest = elim (Bool-cases (ltb 0 (length rest))) [
    | inl e ↦
        let stored = if_true (fill ctx.buffer 0 rest) ctx.buffer e in
        let at_end : length (d ++ p) % 64 ≡ 0 + length rest =
          omega (arith, length-append d p, aligned, length-rest) in
        (
          ap₂ take at_end stored ∙ take-fill ctx.buffer 0 rest (omega arith),
          ap length stored
              ∙ length-fill ctx.buffer 0 rest (omega (arith, length-rest, h.size))
              ∙ h.size,
        )
    | inr e ↦
        let kept = if_false (fill ctx.buffer 0 rest) ctx.buffer e in
        let none_left : length rest ≡ 0 = ground (arith, e) in
        let at_end : length (d ++ p) % 64 ≡ 0 =
          omega (arith, length-append d p, aligned, length-rest, none_left) in
        (ap₂ take at_end kept ∙ empty rest none_left, ap length kept ∙ h.size)
  ]
    where
      empty : (xs : List ℕ) → length xs ≡ 0 → [] ≡ xs
      empty [] q = refl
      empty (x ∷ xs) q = absurd (omega (arith, q))

  pub blocks-Holds :
      (n : ℕ) → n ≡ length (d ++ p) → Holds (record (update_blocks ctx p) { count = n }) (d ++ p)
  unfolding update_blocks
  blocks-Holds n e = record {
    absorbed = blocks-state;
    counted = e;
    pending = buffer-rest.0 ∙ rest-eq;
    size = buffer-rest.1;
  }

-- In the middle of a block.
module _ (ctx : Sha) (d p : List ℕ) (h : Holds ctx d) where
  start : ℕ
  start = length d / 64 * 64

  start-le : start ≤ length d
  unfolding start
  start-le = omega arith

  -- The buffer after bytes that fit into it.
  pub filled-Holds :
      (n : ℕ)
      → n ≡ length (d ++ p)
      → length p < 64 - length d % 64
      → Holds (record ctx { count = n; buffer = fill ctx.buffer (length d % 64) p }) (d ++ p)
  unfolding start
  filled-Holds n e short =
      let same : length (d ++ p) / 64 ≡ length d / 64 = omega (arith, length-append d p, short) in
      let at_end : length (d ++ p) % 64 ≡ length d % 64 + length p =
        omega (arith, length-append d p, short) in
      record {
        absorbed =
            h.absorbed
            ∙ sym (
                ap (λ k. absorb k initial_words (d ++ p)) same
                ∙ absorb-append (length d / 64) initial_words d p start-le);
        counted = e;
        pending =
            ap (λ k. take k (fill ctx.buffer (length d % 64) p)) at_end
            ∙ take-fill ctx.buffer (length d % 64) p (omega (arith, h.size))
            ∙ ap (λ t. t ++ p) h.pending
            ∙ sym (ap (λ k. drop (k * 64) (d ++ p)) same ∙ drop-append start d p start-le);
        size = length-fill ctx.buffer (length d % 64) p (omega (arith, h.size, short)) ∙ h.size;
      }

  -- The buffer that the first bytes complete, where `p` is those.
  pub completed-Holds :
      (n : ℕ)
      → n ≡ length (d ++ p)
      → length d % 64 + length p ≡ 64
      → let whole = fill ctx.buffer (length d % 64) p in
        Holds (record { state = transform ctx.state whole; count = n; buffer = whole }) (d ++ p)
  unfolding start absorb
  completed-Holds n e full =
      let whole : List ℕ = fill ctx.buffer (length d % 64) p in
      let one_more : length (d ++ p) / 64 ≡ 1 + length d / 64 =
        omega (arith, length-append d p, full) in
      let aligned : length (d ++ p) % 64 ≡ 0 = omega (arith, length-append d p, full) in
      let block : whole ≡ drop start (d ++ p) =
        fill_full ctx.buffer (length d % 64) p h.size full
        ∙ ap (λ t. t ++ p) h.pending
        ∙ sym (drop-append start d p start-le) in
      let size : length whole ≡ 64 =
        length-fill ctx.buffer (length d % 64) p (omega (arith, h.size, full)) ∙ h.size in
      record {
        absorbed =
            ap₂ transform
              (h.absorbed ∙ sym (absorb-append (length d / 64) initial_words d p start-le))
              (sym (ap (λ k. take k whole) (sym size) ∙ take_all whole) ∙ ap (take 64) block)
            ∙ sym (absorb-add 1 (length d / 64) initial_words (d ++ p))
            ∙ ap (λ k. absorb k initial_words (d ++ p)) (sym one_more);
        counted = e;
        pending =
            ap (λ k. take k whole) aligned
            ∙ sym (no_more (length (d ++ p) / 64 * 64) (d ++ p) (omega (arith, aligned)));
        size = size;
      }
    where
      no_more : (k : ℕ) (xs : List ℕ) → length xs ≤ k → drop k xs ≡ []
      no_more zero [] q = refl
      no_more zero (x ∷ xs) q = absurd (omega (arith, q))
      no_more (suc k) [] q = refl
      no_more (suc k) (x ∷ xs) q = no_more k xs (omega (arith, q))
