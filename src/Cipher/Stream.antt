-- ===== src/Cipher/Stream.antt =====
-- The counter mode of include/crypto.h: deciphering undoes enciphering, and which packets share a key
-- stream.
use robov.Prelude.{
  ℕ, zero, suc, ◌/◌, ◌%◌, ◌^◌, ◌<◌, ◌≤◌, ◌≡◌, refl, sym, ap, ap₂, ◌∙◌, ◌⊎◌, inl, inr, List, [], ◌∷◌,
  ◌++◌, append-nil, take-append-drop, length, length-append, length-take, length-drop, take_short,
  drop_short, take, drop, take-length-append, drop-length-append, arith, get_or, bit_xor, leb,
  Bool-cases, leb→le, replicate,
}
use robov.Prelude.Bits.{xor_assoc, xor_self, xor-zero}
use robov.Cipher.{CryptoCtx, nonce_tail, crypto_encrypt, crypto_decrypt}
use robov.Cipher.Aes.{encrypt_block, ctr_inc, xor_bytes, ctr_loop, aes256_ctr}

xor_bytes_twice : (xs ks : List ℕ) → xor_bytes (xor_bytes xs ks) ks ≡ xs
unfolding xor_bytes
xor_bytes_twice [] ks = refl
xor_bytes_twice (x ∷ xs) ks =
    ap₂ ◌∷◌
      (xor_assoc x (get_or ks 0 0) (get_or ks 0 0)
        ∙ ap (bit_xor x) (xor_self (get_or ks 0 0))
        ∙ xor-zero x)
      (xor_bytes_twice xs (drop 1 ks))

pub length-xor_bytes : (xs ks : List ℕ) → length (xor_bytes xs ks) ≡ length xs
unfolding xor_bytes
length-xor_bytes [] ks = refl
length-xor_bytes (x ∷ xs) ks = ap suc (length-xor_bytes xs (drop 1 ks))

-- A block in front of the rest: a whole one, or the last one.
abbrev Front : List ℕ → List ℕ → Type 0
Front a rest = (length a ≡ 16) ⊎ ((length a ≤ 16) × (rest ≡ []))

take-Front : (a rest : List ℕ) → Front a rest → take 16 (a ++ rest) ≡ a
take-Front a rest (inl e) = ap (λ n. take n (a ++ rest)) (sym e) ∙ take-length-append a rest
take-Front a rest (inr (h, e)) =
    ap (λ r. take 16 (a ++ r)) e ∙ ap (take 16) (append-nil a) ∙ take_short 16 a h

drop-Front : (a rest : List ℕ) → Front a rest → drop 16 (a ++ rest) ≡ rest
drop-Front a rest (inl e) = ap (λ n. drop n (a ++ rest)) (sym e) ∙ drop-length-append a rest
drop-Front a rest (inr (h, e)) =
    ap (λ r. drop 16 (a ++ r)) e ∙ ap (drop 16) (append-nil a) ∙ drop_short 16 a h ∙ sym e

ctr_loop-nil : (n : ℕ) (rk ctr : List ℕ) → ctr_loop n rk [] ctr ≡ []
unfolding ctr_loop
ctr_loop-nil zero rk ctr = refl
ctr_loop-nil (suc n) rk ctr = refl

-- One round, where there is a byte.
ctr_loop-step :
    (n : ℕ) (rk ctr xs : List ℕ)
    → 0 < length xs
    → ctr_loop (suc n) rk xs ctr
      ≡ xor_bytes (take 16 xs) (encrypt_block rk ctr) ++ ctr_loop n rk (drop 16 xs) (ctr_inc ctr)
unfolding ctr_loop
ctr_loop-step n rk ctr [] h = absurd (omega (arith, h))
ctr_loop-step n rk ctr (x ∷ xs) h = refl

module _ (rk : List ℕ) where
  front :
      (n : ℕ) (xs ctr : List ℕ)
      → Front
          (xor_bytes (take 16 xs) (encrypt_block rk ctr))
          (ctr_loop n rk (drop 16 xs) (ctr_inc ctr))
  front n xs ctr =
      let ks : List ℕ = encrypt_block rk ctr in
      let size = length-xor_bytes (take 16 xs) ks ∙ length-take 16 xs in
      elim (Bool-cases (leb 16 (length xs))) [
        | inl e ↦ inl (omega (arith, size, leb→le 16 (length xs) e))
        | inr e ↦ inr (
          omega (arith, size),
          ap (λ r. ctr_loop n rk r (ctr_inc ctr)) (drop_short 16 xs (ground (arith, e)))
              ∙ ctr_loop-nil n rk (ctr_inc ctr),
        )
      ]

  length-ctr_loop :
      (n : ℕ) (xs ctr : List ℕ) → length xs ≤ n → length (ctr_loop n rk xs ctr) ≡ length xs
  unfolding ctr_loop
  length-ctr_loop zero [] ctr h = refl
  length-ctr_loop zero (x ∷ xs) ctr h = absurd (omega (arith, h))
  length-ctr_loop (suc n) [] ctr h = refl
  length-ctr_loop (suc n) (x ∷ xs) ctr h =
      let ys : List ℕ = x ∷ xs in
      let ks : List ℕ = encrypt_block rk ctr in
      omega (
        arith,
        length-append (xor_bytes (take 16 ys) ks) (ctr_loop n rk (drop 16 ys) (ctr_inc ctr)),
        length-xor_bytes (take 16 ys) ks,
        length-take 16 ys,
        length-drop 16 ys,
        length-ctr_loop n (drop 16 ys) (ctr_inc ctr) (omega (arith, h, length-drop 16 ys)),
      )

  ctr_loop_twice :
      (n : ℕ) (xs ctr : List ℕ) → length xs ≤ n → ctr_loop n rk (ctr_loop n rk xs ctr) ctr ≡ xs
  unfolding ctr_loop
  ctr_loop_twice zero [] ctr h = refl
  ctr_loop_twice zero (x ∷ xs) ctr h = absurd (omega (arith, h))
  ctr_loop_twice (suc n) [] ctr h = refl
  ctr_loop_twice (suc n) (x ∷ xs) ctr h =
      let ys : List ℕ = x ∷ xs in
      let ks : List ℕ = encrypt_block rk ctr in
      let a : List ℕ = xor_bytes (take 16 ys) ks in
      let rest : List ℕ = ctr_loop n rk (drop 16 ys) (ctr_inc ctr) in
      let f = front n ys ctr in
      ctr_loop-step n rk ctr (a ++ rest) (omega (arith, length-ctr_loop (suc n) ys ctr h))
      ∙ ap₂ (λ b r. xor_bytes b ks ++ ctr_loop n rk r (ctr_inc ctr)) (take-Front a rest f)
          (drop-Front a rest f)
      ∙ ap₂ ◌++◌ (xor_bytes_twice (take 16 ys) ks)
          (ctr_loop_twice n (drop 16 ys) (ctr_inc ctr) (omega (arith, h, length-drop 16 ys)))
      ∙ take-append-drop 16 ys

-- Deciphering with the expanded key, the nonce and the packet's four bytes that were used to
-- encipher gives the text back, of any length.
pub decrypt-encrypt :
    (sender receiver : CryptoCtx) (plain : List ℕ)
    → receiver.aes ≡ sender.aes
    → receiver.nonce ≡ sender.nonce
    → crypto_decrypt receiver (crypto_encrypt sender plain).0 (nonce_tail sender.counter) ≡ plain
unfolding crypto_decrypt crypto_encrypt nonce_tail aes256_ctr
decrypt-encrypt s r plain ek en =
    let start : List ℕ → List ℕ =
      λ nonce. take 12 (take 8 nonce ++ nonce_tail s.counter) ++ replicate 4 0 in
    let n = length plain in
    let bytes : List ℕ = ctr_loop n s.aes plain (start s.nonce) in
    let size = length-ctr_loop s.aes n plain (start s.nonce) (omega arith) in
    ap₂ (λ k nonce. ctr_loop (length bytes) k bytes (start nonce)) ek en
    ∙ ap (λ l. ctr_loop l s.aes bytes (start s.nonce)) size
    ∙ ctr_loop_twice s.aes n plain (start s.nonce) (omega arith)

-- The tail of a nonce goes by the number of the packet divided by 256.
tail_of : ℕ → List ℕ
tail_of q = q / 2 ^ 24 % 256 ∷ q / 2 ^ 16 % 256 ∷ q / 2 ^ 8 % 256 ∷ q % 256 ∷ []

nonce_tail-eq : (n : ℕ) → nonce_tail n ≡ tail_of (n / 256)
unfolding nonce_tail tail_of
nonce_tail-eq n = ground arith

-- Two packets whose numbers agree up to the last eight bits are enciphered with the same key stream:
-- the same text gives the same cipher text.
pub keystream_reused :
    (ctx : CryptoCtx) (n m : ℕ) (plain : List ℕ)
    → n / 256 ≡ m / 256
    → (crypto_encrypt (record ctx { counter = n }) plain).0
      ≡ (crypto_encrypt (record ctx { counter = m }) plain).0
unfolding crypto_encrypt
keystream_reused ctx n m plain e =
    ap (λ t. aes256_ctr ctx.aes plain (take 8 ctx.nonce ++ t))
      (nonce_tail-eq n ∙ ap tail_of e ∙ sym (nonce_tail-eq m))
