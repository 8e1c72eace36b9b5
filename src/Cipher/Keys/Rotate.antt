-- ===== src/Cipher/Keys/Rotate.antt =====
-- Two ends that rotate their keys, of include/crypto.h.
use robov.Prelude.{ℕ, ◌≡◌, refl, ap, List, [], ◌∷◌, ◌++◌, take}
use robov.Cipher.{CryptoCtx, crypto_encrypt, crypto_decrypt, nonce_tail}
use robov.Cipher.Sha.{sha256}
use robov.Cipher.Stream.{decrypt-encrypt}
use robov.Cipher.Keys.{crypto_rotate}

-- One change of the key, at the times of the two ends.
pub record Change : Type 0 where
  pub new_key : List ℕ
  pub sent_at : ℕ
  pub received_at : ℕ

-- The contexts of the sender and of the receiver after the changes.
pub rotated_pair : CryptoCtx → CryptoCtx → List Change → CryptoCtx × CryptoCtx
rotated_pair s r [] = (s, r)
rotated_pair s r (c ∷ cs) =
    rotated_pair (crypto_rotate s c.new_key c.sent_at) (crypto_rotate r c.new_key c.received_at) cs

-- The ends share the expanded key and the nonce.
record Paired (s r : CryptoCtx) : Type 0 where
  keys : r.aes ≡ s.aes
  nonces : r.nonce ≡ s.nonce

rotate-Paired :
    (s r : CryptoCtx) (c : Change)
    → Paired s r
    → Paired (crypto_rotate s c.new_key c.sent_at) (crypto_rotate r c.new_key c.received_at)
unfolding crypto_rotate
rotate-Paired s r c p = record {
  keys = refl;
  nonces = ap (λ n. take 12 (sha256 (take 12 n ++ take 32 c.new_key))) p.nonces;
}

rotated-Paired :
    (s r : CryptoCtx) (cs : List Change)
    → Paired s r
    → let ends = rotated_pair s r cs in Paired ends.0 ends.1
unfolding rotated_pair
rotated-Paired s r [] p = p
rotated-Paired s r (c ∷ cs) p =
    rotated-Paired (crypto_rotate s c.new_key c.sent_at) (crypto_rotate r c.new_key c.received_at)
      cs (rotate-Paired s r c p)

-- Ends that shared the expanded key and the nonce read each other's packets after any number of
-- changes of the key, whatever their clocks showed.
pub rotated_delivers :
    (s r : CryptoCtx) (cs : List Change) (plain : List ℕ)
    → r.aes ≡ s.aes
    → r.nonce ≡ s.nonce
    → let ends = rotated_pair s r cs in
      crypto_decrypt ends.1 (crypto_encrypt ends.0 plain).0 (nonce_tail ends.0.counter) ≡ plain
rotated_delivers s r cs plain ek en =
    let p = rotated-Paired s r cs (record { keys = ek; nonces = en }) in
    let ends = rotated_pair s r cs in decrypt-encrypt ends.0 ends.1 plain p.keys p.nonces
