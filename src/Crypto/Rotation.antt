-- ===== src/Crypto/Rotation.antt =====
-- `rc_derive_session_keys` and `rc_session_rotate_keys`: which keys the two ends of a session hold.
use robov.Prelude.{
  ℕ, ◌≡◌, ◌≢◌, refl, sym, ap, ap₂, ◌∙◌, List, [], ◌++◌, true, Option, none, some, if_true, take,
  drop,
}
use robov.Crypto.{
  Primitives, AeadCtx, Session, Status, ok, failed, Draws, hkdf_sha256, rotation_info, iv_info,
  key_info, store_be, rotated, rotate_keys, known_algo, aead_init, init_salt, set_keys, with_iv,
  with_okm, derive_session_keys,
}

-- The two keys of a session.
abbrev pub keys : Session → List ℕ × List ℕ
keys s = (s.encrypt_ctx.key, s.decrypt_ctx.key)

failed-ne_ok : failed ≢ ok
failed-ne_ok e = cc

rotated-keys :
    (d1 d2 : Draws) (o : Option (List ℕ)) (s1 s2 : Session)
    → (rotated d1 o s1).0 ≡ ok
    → keys (rotated d2 o s2).1 ≡ keys (rotated d1 o s1).1
unfolding rotated
rotated-keys d1 d2 none s1 s2 e = absurd (failed-ne_ok e)
rotated-keys d1 d2 (some okm) s1 s2 e = refl

rotated-master :
    (d : Draws) (o : Option (List ℕ)) (s : Session)
    → (rotated d o s).1.master_secret ≡ s.master_secret
unfolding rotated
rotated-master d none s = refl
rotated-master d (some okm) s = refl

-- The key material of a rotation depends on the master secret and the sequence number only.
material : Primitives → List ℕ → ℕ → Option (List ℕ)
material p master seq =
    hkdf_sha256 p (take 32 master) (take 32 master ++ store_be 8 seq []) rotation_info 64

rotate_keys-done :
    (p : Primitives) (d : Draws) (s : Session)
    → s.handshake_done ≡ true
    → rotate_keys p d s ≡ rotated d (material p s.master_secret s.encrypt_seq) s
unfolding rotate_keys material
rotate_keys-done p d s h = if_true _ _ h

-- When a session has rotated its keys and rotates them again at the same sequence number, it gets
-- the keys that it has, whatever was drawn for the salts: the master secret is not replaced.
pub rotate_keys_repeats :
    (p : Primitives) (d1 d2 : Draws) (s s2 : Session)
    → s.handshake_done ≡ true
    → (rotate_keys p d1 s).0 ≡ ok
    → s2.handshake_done ≡ true
    → s2.master_secret ≡ (rotate_keys p d1 s).1.master_secret
    → s2.encrypt_seq ≡ s.encrypt_seq
    → keys (rotate_keys p d2 s2).1 ≡ keys (rotate_keys p d1 s).1
rotate_keys_repeats p d1 d2 s s2 h e h2 em es =
    let first = rotate_keys-done p d1 s h in
    let master =
      em
      ∙ ap (λ (q : Status × Session). q.1.master_secret) first
      ∙ rotated-master d1 (material p s.master_secret s.encrypt_seq) s in
    let again =
      rotate_keys-done p d2 s2 h2 ∙ ap (λ o. rotated d2 o s2) (ap₂ (material p) master es) in
    ap (λ (q : Status × Session). keys q.1) again
    ∙ rotated-keys d1 d2 (material p s.master_secret s.encrypt_seq) s s2
        (sym (ap (λ (q : Status × Session). q.0) first) ∙ e)
    ∙ sym (ap (λ (q : Status × Session). keys q.1) first)

-- What an end uses to send and to receive: its two keys, the two nonce salts and the two numbers.
pub record Ends : Type 0 where
  pub send_key : List ℕ
  pub send_salt : List ℕ
  pub send_seq : ℕ
  pub receive_key : List ℕ
  pub receive_salt : List ℕ
  pub receive_seq : ℕ

pub ends : Session → Ends
ends s = record {
  send_key = s.encrypt_ctx.key;
  send_salt = s.encrypt_ctx.nonce_salt;
  send_seq = s.encrypt_seq;
  receive_key = s.decrypt_ctx.key;
  receive_salt = s.decrypt_ctx.nonce_salt;
  receive_seq = s.decrypt_seq;
}

aead_init-key :
    (c : AeadCtx) (algo : ℕ) (key : List ℕ) (rnd : Option (List ℕ))
    → known_algo algo ≡ true
    → (aead_init c algo key rnd).1.key ≡ take 32 key
unfolding aead_init init_salt
aead_init-key c algo key none k = ap (λ (q : Status × AeadCtx). q.1.key) (if_true _ _ k)
aead_init-key c algo key (some rnd) k = ap (λ (q : Status × AeadCtx). q.1.key) (if_true _ _ k)

-- What `rc_derive_session_keys` makes of its key material.
expanded : List ℕ → List ℕ → Ends
expanded okm iv = record {
  send_key = take 32 okm;
  send_salt = take 12 iv;
  send_seq = 0;
  receive_key = take 32 (drop 32 okm);
  receive_salt = take 12 (drop 12 iv);
  receive_seq = 0;
}

set_keys-ends :
    (d : Draws) (okm iv : List ℕ) (s : Session)
    → known_algo s.algo ≡ true
    → ends (set_keys d okm iv s) ≡ expanded okm iv
unfolding ends set_keys expanded
set_keys-ends d okm iv s k =
    ap₂
      (λ a b. record {
        send_key = a;
        send_salt = take 12 iv;
        send_seq = 0;
        receive_key = b;
        receive_salt = take 12 (drop 12 iv);
        receive_seq = 0;
      })
      (aead_init-key s.encrypt_ctx s.algo okm d.0 k)
      (aead_init-key s.decrypt_ctx s.algo (drop 32 okm) d.1 k)

module _ (p : Primitives) (d1 d2 : Draws) where
  with_iv-ends :
      (okm : List ℕ) (o : Option (List ℕ)) (c s : Session)
      → known_algo c.algo ≡ true
      → known_algo s.algo ≡ true
      → (with_iv d1 okm o c).0 ≡ ok
      → ends (with_iv d1 okm o c).1 ≡ ends (with_iv d2 okm o s).1
  unfolding with_iv
  with_iv-ends okm none c s kc ks e = absurd (failed-ne_ok e)
  with_iv-ends okm (some iv) c s kc ks e =
      set_keys-ends d1 okm iv c kc ∙ sym (set_keys-ends d2 okm iv s ks)

  with_okm-ends :
      (salt : List ℕ) (o : Option (List ℕ)) (c s : Session)
      → known_algo c.algo ≡ true
      → known_algo s.algo ≡ true
      → (with_okm p d1 salt o c).0 ≡ ok
      → ends (with_okm p d1 salt o c).1 ≡ ends (with_okm p d2 salt o s).1
  unfolding with_okm
  with_okm-ends salt none c s kc ks e = absurd (failed-ne_ok e)
  with_okm-ends salt (some okm) c s kc ks e =
      with_iv-ends okm (hkdf_sha256 p okm salt iv_info 24)
        (record c { master_secret = take 64 okm }) (record s { master_secret = take 64 okm }) kc ks
        e

  -- When the client and the server derive their keys from one shared secret and the same two random
  -- values, each with a known algorithm, and the client's call succeeds, both send with the same
  -- key, the same nonce salt and the same sequence number, and both receive with another key, salt
  -- and number that they share.
  pub session_ends_alike :
      (secret client_random server_random : List ℕ) (client server : Session)
      → known_algo client.algo ≡ true
      → known_algo server.algo ≡ true
      → (derive_session_keys p d1 secret client_random server_random client).0 ≡ ok
      → ends (derive_session_keys p d1 secret client_random server_random client).1
        ≡ ends (derive_session_keys p d2 secret client_random server_random server).1
  unfolding derive_session_keys
  session_ends_alike secret cr sr client server kc ks e =
      with_okm-ends (take 32 cr ++ take 32 sr)
        (hkdf_sha256 p secret (take 32 cr ++ take 32 sr) key_info 64) client server kc ks e
