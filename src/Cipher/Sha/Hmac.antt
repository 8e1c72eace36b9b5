-- ===== src/Cipher/Sha/Hmac.antt =====
-- HMAC of include/crypto.h by its definition from SHA-256, and the lengths of the results of both.
use robov.Prelude.{
  zero, drop, map, bit_xor, ap, ◌∙◌, ◌++◌, ◌<◌, ◌≤◌, ◌^◌, suc, arith, append-nil, length-append,
  if◌then◌else◌, ℕ, ◌+◌, ◌-◌, ◌*◌, ◌%◌, u64, replicate, ◌≡◌, refl, List, [], ◌∷◌, if_elim, length,
  ltb,
}
use robov.Proto.Bytes.{be_bytes}
use robov.Cipher.Sha.Blocks.{length-fill}
use robov.Cipher.Sha.Chunks.{sha_updates, joined, sha_chunks}
use robov.Cipher.Sha.{
  sha256, Sha, Words, transform, fill, sha_init, sha_update, hmac_key, xored, words_bytes,
  last_block, sha_final, hmac_sha256,
}

length-last_block :
    (s : Words) (buffer : List ℕ) (idx bits : ℕ) → length (last_block s buffer idx bits) ≡ 32
unfolding last_block words_bytes be_bytes
length-last_block s buffer idx bits = refl

length-sha_final : (ctx : Sha) → length (sha_final ctx) ≡ 32
unfolding sha_final
length-sha_final ctx =
    let answer : List ℕ → Type 0 = λ bytes. length bytes ≡ 32 in
    if_elim answer (ltb 56 (ctx.count % 64 + 1))
      (λ e.
        length-last_block (transform ctx.state (filled ctx)) (filled ctx) 0 (u64 (ctx.count * 8)))
      (λ e. length-last_block ctx.state (marked ctx) (ctx.count % 64 + 1) (u64 (ctx.count * 8)))
  where
    marked : Sha → List ℕ
    marked c = fill c.buffer (c.count % 64) (0x80 ∷ [])

    filled : Sha → List ℕ
    filled c = fill (marked c) (c.count % 64 + 1) (replicate (64 - (c.count % 64 + 1)) 0)

pub length-hmac : (key text : List ℕ) → length (hmac_sha256 key text) ≡ 32
unfolding hmac_sha256
length-hmac key text =
    let k : List ℕ = hmac_key key in
    let inner : List ℕ = sha_final (sha_update (sha_update sha_init (xored 0x36 k)) text) in
    length-sha_final (sha_update (sha_update sha_init (xored 0x5C k)) inner)

length-hmac_key : (key : List ℕ) → length (hmac_key key) ≡ 64
unfolding hmac_key sha256
length-hmac_key key =
    let used : List ℕ = if ltb 64 (length key) then sha256 key else key in
    let small : length used ≤ 64 =
      if_elim (λ (k : List ℕ). length k ≤ 64) (ltb 64 (length key))
        (λ e. omega (arith, length-sha_final (sha_update sha_init key))) (λ e. ground (arith, e)) in
    length-fill (replicate 64 0) 0 used (omega (arith, small))

length-xored : (m : ℕ) (key : List ℕ) → length (xored m key) ≡ length key
unfolding xored
length-xored m [] = refl
length-xored m (k ∷ ks) = ap suc (length-xored m ks)

-- Two updates hash the two texts one behind the other.
two_updates :
    (a b : List ℕ)
    → length a + length b < 2 ^ 64
    → sha_final (sha_update (sha_update sha_init a) b) ≡ sha256 (a ++ b)
unfolding sha_updates joined
two_updates a b h =
    let same : a ++ (b ++ []) ≡ a ++ b = ap (λ t. a ++ t) (append-nil b) in
    sha_chunks (a ∷ b ∷ []) (omega (arith, h, ap length same, length-append a b)) ∙ ap sha256 same

drop-replicate : (n m : ℕ) → drop {A = ℕ} n (replicate m 0) ≡ replicate (m - n) 0
drop-replicate zero m = ap (λ k. replicate k 0) (omega arith)
drop-replicate (suc n) zero =
    let none_left : 0 ≡ 0 - suc n = omega arith in ap (λ k. replicate k 0) none_left
drop-replicate (suc n) (suc m) =
    let same : m - n ≡ suc m - suc n = omega arith in
    drop-replicate n m ∙ ap (λ k. replicate k 0) same

-- The key, or its hash where it is longer than a block, with zeros up to a block.
hmac_key-eq :
    (key : List ℕ)
    → let short = if ltb 64 (length key) then sha256 key else key in
      hmac_key key ≡ short ++ replicate (64 - length short) 0
unfolding hmac_key fill
hmac_key-eq key =
    let short : List ℕ = if ltb 64 (length key) then sha256 key else key in
    let same : 0 + length short ≡ length short = omega arith in
    ap (λ t. short ++ t) (ap (λ n. drop n (replicate 64 0)) same ∙ drop-replicate (length short) 64)

hmac_padded :
    (key text : List ℕ)
    → length text < 2 ^ 63
    → hmac_sha256 key text
      ≡ sha256 (xored 0x5C (hmac_key key) ++ sha256 (xored 0x36 (hmac_key key) ++ text))
unfolding hmac_sha256
hmac_padded key text h =
    let k : List ℕ = hmac_key key in
    let inner : List ℕ = sha_final (sha_update (sha_update sha_init (xored 0x36 k)) text) in
    two_updates (xored 0x5C k) inner (
      omega (
        arith,
        length-xored 0x5C k,
        length-hmac_key key,
        length-sha_final (sha_update (sha_update sha_init (xored 0x36 k)) text),
      ))
    ∙ ap (λ i. sha256 (xored 0x5C k ++ i))
        (two_updates (xored 0x36 k) text
          (omega (arith, h, length-xored 0x36 k, length-hmac_key key)))

-- For a text of fewer than 2 ^ 63 bytes, `rc_hmac_sha256` is HMAC as it is defined from a hash with blocks
-- of 64 bytes: the key, or its hash if it is longer than a block, is filled up with zeros to a block; the
-- result is the hash of that block with 0x5C over each byte and then the hash of that block with 0x36 over
-- each byte and then the text.
pub hmac_lem :
    (key text : List ℕ)
    → length text < 2 ^ 63
    → let short = if ltb 64 (length key) then sha256 key else key in
      let block = short ++ replicate (64 - length short) 0 in
      hmac_sha256 key text
      ≡ sha256 (map (λ x. bit_xor x 0x5C) block ++ sha256 (map (λ x. bit_xor x 0x36) block ++ text))
unfolding xored
hmac_lem key text h =
    hmac_padded key text h
    ∙ ap (λ k. sha256 (xored 0x5C k ++ sha256 (xored 0x36 k ++ text))) (hmac_key-eq key)
