-- ===== src/Cipher/Keys.antt =====
-- Keys and comparisons of include/crypto.h: the rotation of a key, PBKDF2, and the comparison in constant
-- time.
pub mod Rotate
pub mod Derive
pub mod Compare
use robov.Prelude.{
  ℕ, zero, suc, ◌+◌, ◌-◌, ◌/◌, ◌^◌, Bool, true, false, List, [], ◌∷◌, ◌++◌, Option, none, some,
  if◌then◌else◌, ltb, leb, ◌==◌, ◌&&◌, ◌||◌, length, take, drop, get_or, bit_or, bit_xor, sub64,
  u32, u8,
}
use robov.Proto.Bytes.{be_bytes}
use robov.Cipher.{CryptoCtx}
use robov.Cipher.Aes.{key_expand, xor_bytes}
use robov.Cipher.Sha.{sha256, hmac_sha256}

-- `rc_crypto_needs_rotation`: no rotation where `rotate_after_ms` is not positive, and else one where the
-- signed difference of the times is at least that.
pub needs_rotation : CryptoCtx → ℕ → Bool
needs_rotation ctx now =
    if ctx.rotate_after_ms == 0 || leb (2 ^ 63) ctx.rotate_after_ms
    then false
    else ltb (sub64 now ctx.created_at) (2 ^ 63)
      && leb ctx.rotate_after_ms (sub64 now ctx.created_at)

-- `rc_crypto_rotate`
pub crypto_rotate : CryptoCtx → List ℕ → ℕ → CryptoCtx
crypto_rotate ctx new_key now = record ctx {
  key = take 32 new_key;
  aes = key_expand new_key;
  counter = 0;
  created_at = now;
  nonce = take 12 (sha256 (take 12 ctx.nonce ++ take 32 new_key));
}

-- The loop of `rc_secure_compare` over the next `len` bytes.
pub compare_diff : ℕ → List ℕ → List ℕ → ℕ → ℕ
compare_diff zero a b diff = diff
compare_diff (suc len) a b diff =
    compare_diff len (drop 1 a) (drop 1 b)
      (u8 (bit_or diff (bit_xor (get_or a 0 0) (get_or b 0 0))))

-- `rc_secure_compare`
pub secure_compare : List ℕ → List ℕ → ℕ → ℕ
unfolding compare_diff
secure_compare a b len = if compare_diff len a b 0 == 0 then 0 else 1

-- The loop over the iterations behind the first: `n` rounds from `u` and `t`.
pub derive_iter : ℕ → List ℕ → List ℕ → List ℕ → List ℕ
derive_iter zero password u t = t
derive_iter (suc n) password u t =
    let next = hmac_sha256 password u in derive_iter n password next (xor_bytes t next)

-- The 32 bytes of one block.
pub derive_block : List ℕ → List ℕ → ℕ → ℕ → List ℕ
unfolding derive_iter
derive_block password salt iterations block =
    let u = hmac_sha256 password (salt ++ be_bytes 4 block) in
    derive_iter (iterations - 1) password u u

-- What a block puts in front of the blocks behind it.
pub in_front : List ℕ → Option (List ℕ) → Option (List ℕ)
in_front bytes none = none
in_front bytes (some rest) = some (bytes ++ rest)

-- The loop over the blocks: `n` of them from `block` on, with `left` bytes of the output to come. A salt
-- that does not fit into `salt_block` ends it.
pub derive_blocks : ℕ → List ℕ → List ℕ → ℕ → ℕ → ℕ → Option (List ℕ)
unfolding derive_block in_front
derive_blocks zero password salt iterations block left = some []
derive_blocks (suc n) password salt iterations block left =
    let rest = derive_blocks n password salt iterations (block + 1) (left - 32) in
    if ltb 256 (length salt + 4)
    then none
    else in_front (take left (derive_block password salt iterations block)) rest

-- `rc_pbkdf2_hmac_sha256`: the bytes that it writes, or none for `RC_ERR_INVAL`.
pub pbkdf2 : List ℕ → List ℕ → ℕ → ℕ → Option (List ℕ)
unfolding derive_blocks
pbkdf2 password salt iterations out_len =
    if iterations == 0 || out_len == 0
    then none
    else derive_blocks (u32 ((out_len + 31) / 32)) password salt iterations 1 out_len
