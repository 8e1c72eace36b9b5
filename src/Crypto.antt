-- ===== src/Crypto.antt =====
-- src/core/rc_crypto.c and include/rc_crypto.h: nonces, AEAD contexts, the keys of a session, their
-- rotation, and the record layer. What OpenSSL computes is a parameter.
pub mod Nonce
pub mod Records
pub mod Rotation
mod Examples
use robov.Prelude.{
  ℕ, zero, suc, ◌+◌, ◌-◌, ◌*◌, ◌/◌, ◌%◌, ◌^◌, List, [], ◌∷◌, ◌++◌, Bool, true, false, ◌||◌, ◌&&◌,
  Option, none, some, if◌then◌else◌, ltb, ◌==◌, length, take, drop, replicate, add64,
}
use robov.Proto.{Header, hdr_pack}

abbrev pub key_len : ℕ
key_len = 32

abbrev pub tag_len : ℕ
tag_len = 16

-- `RC_AEAD_AES_256_GCM` and `RC_AEAD_CHACHA20_POLY1305` of `rc_aead_algo_t`, which is a number.
abbrev pub aes_256_gcm : ℕ
aes_256_gcm = 1

abbrev pub chacha20_poly1305 : ℕ
chacha20_poly1305 = 2

-- `rc_aead_ctx_t`
pub record AeadCtx : Type 0 where
  pub algo : ℕ
  pub key : List ℕ
  pub key_len : ℕ
  pub nonce_counter : ℕ
  pub nonce_salt : List ℕ

-- `rc_session_t`
pub record Session : Type 0 where
  pub algo : ℕ
  pub encrypt_ctx : AeadCtx
  pub decrypt_ctx : AeadCtx
  pub master_secret : List ℕ
  pub session_id : ℕ
  pub is_resumed : Bool
  pub encrypt_seq : ℕ
  pub decrypt_seq : ℕ
  pub handshake_done : Bool

-- The result 0 or -1 of a call.
pub data Status : Type 0 where
  ok failed : Status

-- What OpenSSL computes. A call that fails gives `none`. `seal algo key nonce aad text` is the
-- cipher text and the tag, `unseal` takes both back to the text; `hkdf secret salt info n` is `n` bytes
-- of key material, `hmac` the 32 bytes of an HMAC-SHA256, `x25519` a shared secret.
pub record Primitives : Type 0 where
  pub seal : ℕ → List ℕ → List ℕ → List ℕ → List ℕ → Option (List ℕ × List ℕ)
  pub unseal : ℕ → List ℕ → List ℕ → List ℕ → List ℕ → List ℕ → Option (List ℕ)
  pub hkdf : List ℕ → List ℕ → List ℕ → ℕ → Option (List ℕ)
  pub hmac : List ℕ → List ℕ → Option (List ℕ)
  pub x25519 : List ℕ → List ℕ → Option (List ℕ)

-- The loop `for (i = n; ...; i--) { p[i] = c & 0xFF; c >>= 8; }` over `k` bytes, put before `after`.
unfoldable pub store_be : ℕ → ℕ → List ℕ → List ℕ
store_be zero c after = after
store_be (suc k) c after = store_be k (c / 256) (c % 256 ∷ after)

-- `rc_derive_nonce`
pub derive_nonce : List ℕ → ℕ → List ℕ
unfolding store_be
derive_nonce salt counter = take 4 salt ++ store_be 8 counter []

-- The `switch` on the algorithm.
unfoldable pub known_algo : ℕ → Bool
known_algo a = a == aes_256_gcm || a == chacha20_poly1305

-- The last step of `rc_aead_init`: `rnd` is what `rc_random_bytes` gives.
init_salt : AeadCtx → Option (List ℕ) → Status × AeadCtx
init_salt ctx none = (failed, ctx)
init_salt ctx (some rnd) = (ok, record ctx { nonce_salt = rnd })

-- `rc_aead_init`
pub aead_init : AeadCtx → ℕ → List ℕ → Option (List ℕ) → Status × AeadCtx
unfolding known_algo init_salt
aead_init ctx0 algo key rnd =
    let ctx = record ctx0 { algo = algo; nonce_counter = 0 } in
    if known_algo algo
    then init_salt (record ctx { key_len = key_len; key = take key_len key }) rnd
    else (failed, ctx)

append_tag : Option (List ℕ × List ℕ) → Option (List ℕ)
append_tag none = none
append_tag (some (text, tag)) = some (text ++ tag)

-- `rc_aead_encrypt`: the bytes that it stores, the tag behind the cipher text.
pub aead_encrypt : Primitives → AeadCtx → List ℕ → List ℕ → List ℕ → Option (List ℕ)
unfolding append_tag known_algo
aead_encrypt p ctx nonce text aad =
    if known_algo ctx.algo then append_tag (p.seal ctx.algo ctx.key nonce aad text) else none

-- `rc_aead_decrypt`: the text that it stores when the tag is right.
pub aead_decrypt : Primitives → AeadCtx → List ℕ → List ℕ → List ℕ → Option (List ℕ)
unfolding known_algo
aead_decrypt p ctx nonce bytes aad =
    if ltb (length bytes) tag_len
    then none
    else (if known_algo ctx.algo
        then (let enc_len = length bytes - tag_len in
            p.unseal ctx.algo ctx.key nonce aad (take enc_len bytes) (drop enc_len bytes))
        else none)

-- `rc_hkdf_sha256`
unfoldable pub hkdf_sha256 : Primitives → List ℕ → List ℕ → List ℕ → ℕ → Option (List ℕ)
hkdf_sha256 p ikm salt info okm_len =
    if ltb (255 * 32) okm_len then none else p.hkdf ikm salt info okm_len

-- The `info` strings, in ASCII.
abbrev pub key_info : List ℕ
key_info =
    82 ∷ 111 ∷ 98 ∷ 111 ∷ 67 ∷ 111 ∷ 110 ∷ 116 ∷ 114 ∷ 111 ∷ 108 ∷ 32 ∷ 118 ∷ 49 ∷ 32 ∷ 107 ∷ 101
    ∷ 121 ∷ 32 ∷ 101 ∷ 120 ∷ 112 ∷ 97 ∷ 110 ∷ 115 ∷ 105 ∷ 111 ∷ 110 ∷ []

abbrev pub iv_info : List ℕ
iv_info =
    82 ∷ 111 ∷ 98 ∷ 111 ∷ 67 ∷ 111 ∷ 110 ∷ 116 ∷ 114 ∷ 111 ∷ 108 ∷ 32 ∷ 118 ∷ 49 ∷ 32 ∷ 105 ∷ 118
    ∷ 32 ∷ 101 ∷ 120 ∷ 112 ∷ 97 ∷ 110 ∷ 115 ∷ 105 ∷ 111 ∷ 110 ∷ []

abbrev pub rotation_info : List ℕ
rotation_info =
    82 ∷ 111 ∷ 98 ∷ 111 ∷ 67 ∷ 111 ∷ 110 ∷ 116 ∷ 114 ∷ 111 ∷ 108 ∷ 32 ∷ 118 ∷ 49 ∷ 32 ∷ 107 ∷ 101
    ∷ 121 ∷ 32 ∷ 114 ∷ 111 ∷ 116 ∷ 97 ∷ 116 ∷ 105 ∷ 111 ∷ 110 ∷ []

-- The random bytes that the two calls of `rc_aead_init` draw.
abbrev pub Draws : Type 0
Draws = Option (List ℕ) × Option (List ℕ)

-- The end of `rc_derive_session_keys`, on the key and the IV material. What the calls of
-- `rc_aead_init` return is not looked at.
pub set_keys : Draws → List ℕ → List ℕ → Session → Session
unfolding aead_init
set_keys draws okm iv s =
    let enc = (aead_init s.encrypt_ctx s.algo okm draws.0).1 in
    let dec = (aead_init s.decrypt_ctx s.algo (drop 32 okm) draws.1).1 in
    record s {
      encrypt_ctx = record enc { nonce_salt = take 12 iv };
      decrypt_ctx = record dec { nonce_salt = take 12 (drop 12 iv) };
      encrypt_seq = 0;
      decrypt_seq = 0;
      handshake_done = true;
    }

with_iv : Draws → List ℕ → Option (List ℕ) → Session → Status × Session
unfolding set_keys
with_iv draws okm none s = (failed, s)
with_iv draws okm (some iv) s = (ok, set_keys draws okm iv s)

with_okm : Primitives → Draws → List ℕ → Option (List ℕ) → Session → Status × Session
unfolding hkdf_sha256 with_iv
with_okm p draws salt none s = (failed, s)
with_okm p draws salt (some okm) s =
    with_iv draws okm (hkdf_sha256 p okm salt iv_info 24) (record s { master_secret = take 64 okm })

-- `rc_derive_session_keys`
unfoldable pub derive_session_keys :
    Primitives → Draws → List ℕ → List ℕ → List ℕ → Session → Status × Session
unfolding with_okm
derive_session_keys p draws secret client_random server_random s =
    let salt = take 32 client_random ++ take 32 server_random in
    with_okm p draws salt (hkdf_sha256 p secret salt key_info 64) s

-- A cleared `rc_aead_ctx_t`, and a cleared `rc_session_t`.
abbrev pub blank_ctx : AeadCtx
blank_ctx = record {
  algo = 0;
  key = replicate 32 0;
  key_len = 0;
  nonce_counter = 0;
  nonce_salt = replicate 12 0;
}

abbrev pub blank_session : Session
blank_session = record {
  algo = 0;
  encrypt_ctx = blank_ctx;
  decrypt_ctx = blank_ctx;
  master_secret = replicate 64 0;
  session_id = 0;
  is_resumed = false;
  encrypt_seq = 0;
  decrypt_seq = 0;
  handshake_done = false;
}

-- `rc_session_init` and `rc_session_destroy`
unfoldable pub session_init : ℕ → Session
session_init algo = record blank_session { algo = algo }

pub session_destroy : Session → Session
session_destroy s = blank_session

-- A nonce salt over which `rc_random_bytes` writes, unless it fails.
redraw : List ℕ → Option (List ℕ) → List ℕ
redraw salt none = salt
redraw salt (some rnd) = rnd

-- The end of `rc_session_rotate_keys`.
pub new_keys : Draws → List ℕ → Session → Session
unfolding redraw
new_keys draws okm s =
    let enc_salt = redraw s.encrypt_ctx.nonce_salt draws.0 in
    let dec_salt = redraw s.decrypt_ctx.nonce_salt draws.1 in
    record s {
      encrypt_ctx = record (s.encrypt_ctx) { key = take 32 okm; nonce_salt = enc_salt };
      decrypt_ctx = record (s.decrypt_ctx) { key = take 32 (drop 32 okm); nonce_salt = dec_salt };
      encrypt_seq = 0;
      decrypt_seq = 0;
    }

rotated : Draws → Option (List ℕ) → Session → Status × Session
unfolding new_keys
rotated draws none s = (failed, s)
rotated draws (some okm) s = (ok, new_keys draws okm s)

-- `rc_session_rotate_keys`
pub rotate_keys : Primitives → Draws → Session → Status × Session
unfolding rotated hkdf_sha256 store_be
rotate_keys p draws s =
    let salt = take 32 s.master_secret ++ store_be 8 s.encrypt_seq [] in
    if s.handshake_done
    then rotated draws (hkdf_sha256 p (take 32 s.master_secret) salt rotation_info 64) s
    else (failed, s)

-- `rc_record_encrypt`: what is stored in place of the payload, or -1.
pub record_encrypt : Primitives → Session → Header → List ℕ → Option (List ℕ) × Session
unfolding aead_encrypt derive_nonce
record_encrypt p s hdr payload =
    if s.handshake_done
    then (
      aead_encrypt p s.encrypt_ctx (derive_nonce s.encrypt_ctx.nonce_salt s.encrypt_seq) payload
          (hdr_pack hdr),
      record s { encrypt_seq = add64 s.encrypt_seq 1 },
    )
    else (none, s)

-- `rc_record_decrypt`
pub record_decrypt : Primitives → Session → Header → List ℕ → Option (List ℕ) × Session
unfolding aead_decrypt derive_nonce
record_decrypt p s hdr payload =
    if s.handshake_done
    then (if ltb (length payload) tag_len then (none, s) else (
      aead_decrypt p s.decrypt_ctx (derive_nonce s.decrypt_ctx.nonce_salt s.decrypt_seq) payload
          (hdr_pack hdr),
      record s { decrypt_seq = add64 s.decrypt_seq 1 },
    ))
    else (none, s)
