-- ===== src/Cipher/Examples.antt =====
-- The primitives of include/crypto.h at small inputs.
use robov.Prelude.{
  map, bit_xor, ◌++◌, ℕ, ◌+◌, ◌≡◌, refl, List, [], ◌∷◌, length, take, ◌/◌, replicate, arith,
}
use robov.Cipher.{CryptoCtx, crypto_init, crypto_encrypt, crypto_decrypt, nonce_tail}
use robov.Cipher.Stream.{keystream_reused}
use robov.Cipher.Keys.Rotate.{Change, rotated_pair, rotated_delivers}
use robov.Cipher.Keys.{pbkdf2}
use robov.Cipher.Keys.Derive.{Answer, stream, pbkdf2_lem}
use robov.Cipher.Sha.{hmac_sha256, sha_init, sha_final, sha256}
use robov.Cipher.Sha.Hmac.{hmac_lem}
use robov.Cipher.Sha.Chunks.{sha_updates, joined, sha_chunks}

-- The text `abc`.
abbrev abc : List ℕ
abc = 97 ∷ 98 ∷ 99 ∷ []

abbrev sender : CryptoCtx
sender = crypto_init (replicate 32 7) (replicate 12 9) 60000 5

-- Two changes of the key.
abbrev changes : List Change
changes =
    record { new_key = replicate 32 1; sent_at = 70000; received_at = 70010 }
    ∷ record { new_key = replicate 32 2; sent_at = 140000; received_at = 140002 }
    ∷ []

rotated_delivers_example :
    let ends = rotated_pair sender sender changes in
    crypto_decrypt ends.1 (crypto_encrypt ends.0 abc).0 (nonce_tail ends.0.counter) ≡ abc
rotated_delivers_example = rotated_delivers sender sender changes abc refl refl

pbkdf2_lem_example :
    Answer abc 2 40 (take 40 (stream abc abc 2 ((40 + 31) / 32) 1)) (pbkdf2 abc abc 2 40)
pbkdf2_lem_example = pbkdf2_lem abc abc 2 40 (omega arith)

keystream_reused_example :
    (crypto_encrypt (record sender { counter = 512 }) abc).0
    ≡ (crypto_encrypt (record sender { counter = 700 }) abc).0
keystream_reused_example = keystream_reused sender 512 700 abc refl

sha_chunks_example :
    sha_final (sha_updates sha_init (abc ∷ [] ∷ replicate 70 1 ∷ abc ∷ []))
    ≡ sha256 (joined (abc ∷ [] ∷ replicate 70 1 ∷ abc ∷ []))
unfolding joined
sha_chunks_example =
    let size : length (joined (abc ∷ [] ∷ replicate 70 1 ∷ abc ∷ [])) ≡ 76 = refl in
    sha_chunks (abc ∷ [] ∷ replicate 70 1 ∷ abc ∷ []) (omega (arith, size))

-- The key `abc` as a block.
abbrev key_block : List ℕ
key_block = abc ++ replicate 61 0

hmac_lem_example :
    hmac_sha256 abc abc
    ≡ sha256
        (map (λ x. bit_xor x 0x5C) key_block ++ sha256 (map (λ x. bit_xor x 0x36) key_block ++ abc))
hmac_lem_example = hmac_lem abc abc (omega arith)
