-- ===== src/Cipher/Sha/Chunks.antt =====
-- SHA-256 of include/crypto.h over any sequence of `rc_sha256_update`.
use robov.Prelude.{
  ℕ, ◌+◌, ◌-◌, ◌*◌, ◌/◌, ◌%◌, ◌^◌, ◌<◌, ◌≤◌, ◌≡◌, refl, sym, ap, ap₂, ◌∙◌, List, [], ◌∷◌, ◌++◌,
  append_assoc, append-nil, Bool-cases, inl, inr, if_true, if_false, if_elim, ltb, leb, leb→le,
  arith, length, length-append, length-take, length-replicate, take, drop, replicate,
  take-append-drop, if◌then◌else◌, add64, u64,
}
use mathlib.Core.Path.{subst}
use robov.Cipher.Sha.{
  Words, Sha, initial_words, absorb, transform, fill, update_blocks, sha_update, sha_final,
  last_block, sha_init, sha256,
}
use robov.Cipher.Sha.Blocks.{take-fill, length-fill, fill_full, last_block-eq}
use robov.Cipher.Sha.Streaming.{Holds, sha_init-Holds, blocks-Holds, filled-Holds, completed-Holds}

-- One update behind `d`, with the state and the buffer that hold it.
module _ (s : Words) (b : List ℕ) (d p : List ℕ)
    (h : Holds (record { state = s; count = length d; buffer = b }) d)
    (short : length (d ++ p) < 2 ^ 64) where
  behind : Sha
  behind = record { state = s; count = length d; buffer = b }

  now : ℕ
  now = add64 (length d) (length p)

  now-eq : now ≡ length (d ++ p)
  unfolding now
  now-eq = omega (arith, short, length-append d p)

  -- The piece completes the partial block.
  room : ℕ
  room = 64 - length d % 64

  head : List ℕ
  head = take room p

  tail : List ℕ
  tail = drop room p

  whole : List ℕ
  whole = fill b (length d % 64) head

  continued-Holds :
      room ≤ length p
      → Holds
          (update_blocks (record { state = transform s whole; count = now; buffer = whole }) tail)
          (d ++ p)
  unfolding room head tail whole update_blocks behind
  continued-Holds fits =
      let size : length d % 64 + length head ≡ 64 = omega (arith, length-take room p, fits) in
      let pieces : (d ++ head) ++ tail ≡ d ++ p =
        append_assoc d head tail ∙ ap (λ t. d ++ t) (take-append-drop room p) in
      subst
        (Holds
          (update_blocks (record { state = transform s whole; count = now; buffer = whole }) tail))
        pieces
        (blocks-Holds
          (record { state = transform s whole; count = length (d ++ head); buffer = whole })
          (d ++ head) tail (completed-Holds behind d head h (length (d ++ head)) refl size)
          (omega (arith, length-append d head, size)) now (now-eq ∙ sym (ap length pieces)))

  update_behind-Holds : Holds (sha_update behind p) (d ++ p)
  unfolding sha_update behind room head tail whole now
  update_behind-Holds =
      let blocks : Sha = update_blocks (record behind { count = now }) p in
      let continued : Sha =
        update_blocks (record { state = transform s whole; count = now; buffer = whole }) tail in
      let filled : Sha = record behind { count = now; buffer = fill b (length d % 64) p } in
      let partly : Sha = if leb room (length p) then continued else filled in
      if_elim (λ c. Holds c (d ++ p)) (ltb 0 (length d % 64))
        (λ some_idx.
          if_elim (λ c. Holds c (d ++ p)) (leb room (length p))
            (λ fits. continued-Holds (leb→le room (length p) fits))
            (λ fits. filled-Holds behind d p h now now-eq (ground (arith, fits))))
        (λ none. blocks-Holds behind d p h (ground (arith, none)) now now-eq)

update-Holds :
    (ctx : Sha) (d p : List ℕ)
    → Holds ctx d
    → length (d ++ p) < 2 ^ 64
    → Holds (sha_update ctx p) (d ++ p)
unfolding behind
update-Holds ctx d p h short =
    let at : ctx ≡ record { state = ctx.state; count = length d; buffer = ctx.buffer } =
      ap (λ n. record { state = ctx.state; count = n; buffer = ctx.buffer }) h.counted in
    subst (λ c. Holds (sha_update c p) (d ++ p)) (sym at)
      (update_behind-Holds ctx.state ctx.buffer d p (subst (λ c. Holds c d) at h) short)

-- Buffers that agree on the pending bytes give the same hash.
module _ (s : Words) (n : ℕ) (b1 b2 : List ℕ) (size1 : length b1 ≡ 64) (size2 : length b2 ≡ 64)
    (same : take (n % 64) b1 ≡ take (n % 64) b2) where
  marked : List ℕ → List ℕ
  marked b = fill b (n % 64) (0x80 ∷ [])

  length-marked : (b : List ℕ) → length b ≡ 64 → length (marked b) ≡ 64
  unfolding marked
  length-marked b size = length-fill b (n % 64) (0x80 ∷ []) (omega (arith, size)) ∙ size

  marked-eq : take (n % 64 + 1) (marked b1) ≡ take (n % 64 + 1) (marked b2)
  unfolding marked
  marked-eq =
      take-fill b1 (n % 64) (0x80 ∷ []) (omega (arith, size1))
      ∙ ap (λ t. t ++ 0x80 ∷ []) same
      ∙ sym (take-fill b2 (n % 64) (0x80 ∷ []) (omega (arith, size2)))

  padded : List ℕ → List ℕ
  padded b = fill (marked b) (n % 64 + 1) (replicate (64 - (n % 64 + 1)) 0)

  padded-eq : padded b1 ≡ padded b2
  unfolding padded
  padded-eq =
      let zeros : List ℕ = replicate (64 - (n % 64 + 1)) 0 in
      let upto : n % 64 + 1 + length zeros ≡ 64 =
        omega (arith, length-replicate {A = ℕ} (64 - (n % 64 + 1)) 0) in
      fill_full (marked b1) (n % 64 + 1) zeros (length-marked b1 size1) upto
      ∙ ap (λ t. t ++ zeros) marked-eq
      ∙ sym (fill_full (marked b2) (n % 64 + 1) zeros (length-marked b2 size2) upto)

  final_pending :
      sha_final (record { state = s; count = n; buffer = b1 })
      ≡ sha_final (record { state = s; count = n; buffer = b2 })
  unfolding sha_final padded marked
  final_pending = elim (Bool-cases (ltb 56 (n % 64 + 1))) [
    | inl e ↦
        if_true _ _ e
        ∙ ap (λ f. last_block (transform s f) f 0 (u64 (n * 8))) padded-eq
        ∙ sym (if_true _ _ e)
    | inr e ↦
        if_false _ _ e
        ∙ last_block-eq s (marked b1) (marked b2) (n % 64 + 1) (u64 (n * 8))
            (length-marked b1 size1) (length-marked b2 size2) (ground (arith, e)) marked-eq
        ∙ sym (if_false _ _ e)
  ]

final-eq : (c1 c2 : Sha) (d : List ℕ) → Holds c1 d → Holds c2 d → sha_final c1 ≡ sha_final c2
final-eq c1 c2 d h1 h2 =
    let at : (c : Sha)
        → Holds c d
        → c ≡ record {
          state = absorb (length d / 64) initial_words d;
          count = length d;
          buffer = c.buffer;
        } =
      λ c h. ap₂ (λ s n. record { state = s; count = n; buffer = c.buffer }) h.absorbed h.counted in
    ap sha_final (at c1 h1)
    ∙ final_pending (absorb (length d / 64) initial_words d) (length d) c1.buffer c2.buffer h1.size
        h2.size (h1.pending ∙ sym h2.pending)
    ∙ ap sha_final (sym (at c2 h2))

-- The updates with several pieces, one after the other.
unfoldable pub sha_updates : Sha → List (List ℕ) → Sha
sha_updates ctx [] = ctx
sha_updates ctx (c ∷ cs) = sha_updates (sha_update ctx c) cs

unfoldable pub joined : List (List ℕ) → List ℕ
joined [] = []
joined (c ∷ cs) = c ++ joined cs

updates-Holds :
    (ctx : Sha) (d : List ℕ) (cs : List (List ℕ))
    → Holds ctx d
    → length (d ++ joined cs) < 2 ^ 64
    → Holds (sha_updates ctx cs) (d ++ joined cs)
unfolding sha_updates joined
updates-Holds ctx d [] h short = subst (Holds ctx) (sym (append-nil d)) h
updates-Holds ctx d (c ∷ cs) h short =
    let same = append_assoc d c (joined cs) in
    subst (Holds (sha_updates (sha_update ctx c) cs)) same (
      updates-Holds (sha_update ctx c) (d ++ c) cs
        (update-Holds ctx d c h
          (omega (arith, short, ap length same, length-append (d ++ c) (joined cs))))
        (omega (arith, short, ap length same)))

-- Hashing a text of fewer than 2 ^ 64 bytes in pieces, whatever their number and lengths, gives the
-- hash of the whole text.
pub sha_chunks :
    (cs : List (List ℕ))
    → length (joined cs) < 2 ^ 64
    → sha_final (sha_updates sha_init cs) ≡ sha256 (joined cs)
unfolding sha256
sha_chunks cs short =
    final-eq (sha_updates sha_init cs) (sha_update sha_init (joined cs)) (joined cs)
      (updates-Holds sha_init [] cs sha_init-Holds short)
      (update-Holds sha_init [] (joined cs) sha_init-Holds short)
