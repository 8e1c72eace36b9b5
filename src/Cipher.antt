-- ===== src/Cipher.antt =====
-- include/crypto.h, the primitives of the services: AES-256 in counter mode in Cipher/Aes, and here the
-- context of a connection.
pub mod Aes
pub mod Stream
pub mod Sha
pub mod Keys
mod Examples
use robov.Prelude.{ℕ, ◌+◌, ◌/◌, ◌%◌, ◌^◌, List, [], ◌∷◌, ◌++◌, take, add64}
use Aes.{key_expand, aes256_ctr}

-- `rc_crypto_ctx_t`. The times are 64-bit words that the code reads as signed.
pub record CryptoCtx : Type 0 where
  pub aes : List ℕ
  pub key : List ℕ
  pub nonce : List ℕ
  pub counter : ℕ
  pub created_at : ℕ
  pub rotate_after_ms : ℕ

-- `rc_crypto_init` at the time `now`.
pub crypto_init : List ℕ → List ℕ → ℕ → ℕ → CryptoCtx
crypto_init key nonce rotate_after_ms now = record {
  aes = key_expand key;
  key = take 32 key;
  nonce = take 12 nonce;
  counter = 0;
  created_at = now;
  rotate_after_ms = rotate_after_ms;
}

-- The four bytes of the nonce that stand for the packet.
pub nonce_tail : ℕ → List ℕ
nonce_tail ctr =
    ctr / 2 ^ 32 % 256 ∷ ctr / 2 ^ 24 % 256 ∷ ctr / 2 ^ 16 % 256 ∷ ctr / 2 ^ 8 % 256 ∷ []

-- `rc_crypto_encrypt`: the cipher text, and the context.
pub crypto_encrypt : CryptoCtx → List ℕ → List ℕ × CryptoCtx
unfolding nonce_tail
crypto_encrypt ctx plain = (
  aes256_ctr ctx.aes plain (take 8 ctx.nonce ++ nonce_tail ctx.counter),
  record ctx { counter = add64 ctx.counter 1 },
)

-- `rc_crypto_decrypt`, with the four bytes that the caller has from the sender.
pub crypto_decrypt : CryptoCtx → List ℕ → List ℕ → List ℕ
crypto_decrypt ctx bytes tail = aes256_ctr ctx.aes bytes (take 8 ctx.nonce ++ take 4 tail)
