-- ===== src/Cipher/Keys/Derive.antt =====
-- PBKDF2 of include/crypto.h.
use robov.Prelude.{
  ℕ, zero, suc, ◌+◌, ◌-◌, ◌*◌, ◌/◌, ◌^◌, ◌<◌, ◌≤◌, ◌≡◌, inl, inr, Bool-cases, true, false, refl,
  sym, ap, ◌∙◌, List, [], ◌∷◌, ◌++◌, Option, none, some, arith, ltb, ◌==◌, ◌||◌, length,
  length-append, length-take, take, if_true, if_false, u32,
}
use mathlib.Core.Path.{subst}
use robov.Cipher.Aes.{xor_bytes}
use robov.Cipher.Stream.{length-xor_bytes}
use robov.Cipher.Sha.{hmac_sha256}
use robov.Cipher.Sha.Hmac.{length-hmac}
use robov.Cipher.Keys.{derive_iter, derive_block, in_front, derive_blocks, pbkdf2}
use robov.Proto.Bytes.{be_bytes}

length-derive_iter :
    (n : ℕ) (password u t : List ℕ) → length (derive_iter n password u t) ≡ length t
unfolding derive_iter
length-derive_iter zero password u t = refl
length-derive_iter (suc n) password u t =
    let next : List ℕ = hmac_sha256 password u in
    length-derive_iter n password next (xor_bytes t next) ∙ length-xor_bytes t next

take_nil : (k : ℕ) → take {A = ℕ} k [] ≡ []
take_nil zero = refl
take_nil (suc k) = refl

take-append_any :
    (n : ℕ) (xs ys : List ℕ) → take n (xs ++ ys) ≡ take n xs ++ take (n - length xs) ys
take-append_any n [] ys =
    let all : n ≡ n - 0 = omega arith in
    ap (λ k. take k ys) all ∙ ap (λ t. t ++ take (n - 0) ys) (sym (take_nil n))
take-append_any zero (x ∷ xs) ys =
    let none_left : 0 ≡ 0 - length (x ∷ xs) = omega arith in ap (λ k. take k ys) none_left
take-append_any (suc n) (x ∷ xs) ys =
    let same : n - length xs ≡ suc n - length (x ∷ xs) = omega arith in
    ap (λ t. x ∷ t) (take-append_any n xs ys) ∙ ap (λ k. x ∷ (take n xs ++ take k ys)) same

module _ (password salt : List ℕ) (iterations : ℕ) where
  length-derive_block : (block : ℕ) → length (derive_block password salt iterations block) ≡ 32
  unfolding derive_block
  length-derive_block block =
      let u : List ℕ = hmac_sha256 password (salt ++ be_bytes 4 block) in
      length-derive_iter (iterations - 1) password u u
      ∙ length-hmac password (salt ++ be_bytes 4 block)

  -- The output of `n` blocks.
  output : ℕ → ℕ → ℕ → List ℕ
  output zero block left = []
  output (suc n) block left =
      take left (derive_block password salt iterations block) ++ output n (block + 1) (left - 32)

  derive_blocks-output :
      (n block left : ℕ)
      → length salt ≤ 252
      → derive_blocks n password salt iterations block left ≡ some (output n block left)
  unfolding derive_blocks output in_front
  derive_blocks-output zero block left h = refl
  derive_blocks-output (suc n) block left h =
      let fits : ltb 256 (length salt + 4) ≡ false = ground (arith, h) in
      if_false _ _ fits
      ∙ ap (in_front (take left (derive_block password salt iterations block)))
          (derive_blocks-output n (block + 1) (left - 32) h)

  derive_blocks_refused :
      (n block left : ℕ)
      → 252 < length salt
      → derive_blocks (suc n) password salt iterations block left ≡ none
  unfolding derive_blocks
  derive_blocks_refused n block left h =
      let over : ltb 256 (length salt + 4) ≡ true = ground (arith, h) in if_true _ _ over

  -- The blocks one after the other, none cut.
  pub stream : ℕ → ℕ → List ℕ
  stream zero block = []
  stream (suc n) block = derive_block password salt iterations block ++ stream n (block + 1)

  length-stream : (n block : ℕ) → length (stream n block) ≡ n * 32
  unfolding stream
  length-stream zero block = refl
  length-stream (suc n) block = omega (
    arith,
    length-append (derive_block password salt iterations block) (stream n (block + 1)),
    length-derive_block block,
    length-stream n (block + 1),
  )

  output-stream : (n block left : ℕ) → output n block left ≡ take left (stream n block)
  unfolding output stream
  output-stream zero block left = sym (take_nil left)
  output-stream (suc n) block left =
      let bytes : List ℕ = derive_block password salt iterations block in
      ap (λ r. take left bytes ++ r)
        (output-stream n (block + 1) (left - 32)
          ∙ ap (λ k. take (left - k) (stream n (block + 1))) (sym (length-derive_block block)))
      ∙ sym (take-append_any left bytes (stream n (block + 1)))

-- The two answers: the arguments are refused, or the key is `bytes`.
pub data Answer (salt : List ℕ) (iterations out_len : ℕ) (bytes : List ℕ)
    : Option (List ℕ) → Type 0 where
  no_rounds : iterations ≡ 0 → Answer salt iterations out_len bytes none
  no_output : out_len ≡ 0 → Answer salt iterations out_len bytes none
  long_salt : 252 < length salt → Answer salt iterations out_len bytes none
  key :
      0 < iterations
      → 0 < out_len
      → length salt ≤ 252
      → length bytes ≡ out_len
      → Answer salt iterations out_len bytes (some bytes)

-- For an output below 2 ^ 36 bytes: no iteration, no output or a salt above 252 bytes is refused, and
-- otherwise the key is the blocks from number 1 on, one after the other, cut to the length asked for,
-- which they reach.
pub pbkdf2_lem :
    (password salt : List ℕ) (iterations out_len : ℕ)
    → out_len < 2 ^ 36
    → Answer salt iterations out_len
        (take out_len (stream password salt iterations ((out_len + 31) / 32) 1))
        (pbkdf2 password salt iterations out_len)
unfolding pbkdf2
pbkdf2_lem password salt iterations out_len small = elim (Bool-cases (iterations == 0)) [
  | inl i ↦ refuse (ground (arith, i)) (no_rounds (ground (arith, i)))
  | inr i ↦ elim (Bool-cases (out_len == 0)) [
    | inl o ↦ refuse (ground (arith, i, o)) (no_output (ground (arith, o)))
    | inr o ↦ elim (Bool-cases (ltb 252 (length salt))) [
      | inl l ↦
          answer (ground (arith, i, o))
            (ap (λ n. derive_blocks n password salt iterations 1 out_len) (more (ground (arith, o)))
              ∙ derive_blocks_refused password salt iterations ((out_len - 1) / 32) 1 out_len
                  (ground (arith, l)))
            (long_salt (ground (arith, l)))
      | inr l ↦
          answer (ground (arith, i, o))
            (ap (λ n. derive_blocks n password salt iterations 1 out_len) whole
              ∙ derive_blocks-output password salt iterations blocks 1 out_len (ground (arith, l))
              ∙ ap some (output-stream password salt iterations blocks 1 out_len))
            (key (ground (arith, i)) (ground (arith, o)) (ground (arith, l)) reached)
    ]
  ]
]
  where
    blocks : ℕ
    blocks = (out_len + 31) / 32

    whole : u32 blocks ≡ blocks
    whole = omega (arith, small)

    more : 0 < out_len → u32 blocks ≡ suc ((out_len - 1) / 32)
    more h = omega (arith, small, h)

    bytes : List ℕ
    bytes = take out_len (stream password salt iterations blocks 1)

    reached : length bytes ≡ out_len
    reached = omega (
      arith,
      length-take out_len (stream password salt iterations blocks 1),
      length-stream password salt iterations blocks 1,
    )

    refuse :
        (iterations == 0 || out_len == 0) ≡ true
        → Answer salt iterations out_len bytes none
        → Answer salt iterations out_len bytes (pbkdf2 password salt iterations out_len)
    refuse e a = subst (Answer salt iterations out_len bytes) (sym (if_true _ _ e)) a

    answer :
        (iterations == 0 || out_len == 0) ≡ false
        → {r : Option (List ℕ)} → derive_blocks (u32 blocks) password salt iterations 1 out_len ≡ r
        → Answer salt iterations out_len bytes r
        → Answer salt iterations out_len bytes (pbkdf2 password salt iterations out_len)
    answer e q a = subst (Answer salt iterations out_len bytes) (sym (if_false _ _ e ∙ q)) a
