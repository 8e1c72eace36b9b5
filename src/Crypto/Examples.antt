-- ===== src/Crypto/Examples.antt =====
-- The functions of the cryptography at small inputs, with a cipher that only appends a tag.
use robov.Prelude.{ℕ, ◌≡◌, ◌≢◌, refl, List, [], ◌∷◌, ◌++◌, true, none, some, replicate, take, arith}
use robov.Proto.{Header, hdr_init}
use robov.Crypto.{
  Primitives, Session, Draws, derive_nonce, derive_session_keys, session_init, rotate_keys,
  record_decrypt, known_algo,
}
use robov.Crypto.Nonce.{derive_nonce-injective}
use robov.Crypto.Records.{SealsAll, Synced, Delivers, records_delivered, record_decrypt-desyncs}
use robov.Crypto.Rotation.{keys, ends, rotate_keys_repeats, session_ends_alike}

abbrev toy : Primitives
toy = record {
  seal = λ algo key nonce aad text. some (text, replicate 16 7);
  unseal = λ algo key nonce aad body tag. some body;
  hkdf = λ secret salt info n. some (take n (secret ++ salt ++ info ++ replicate n 0));
  hmac = λ key text. some (take 32 text);
  x25519 = λ mine theirs. some (replicate 32 9);
}

toy-SealsAll : SealsAll toy
toy-SealsAll algo key nonce aad text k = record {
  body = text;
  tag = replicate 16 7;
  sealed = refl;
  tag_length = refl;
  opened = refl;
}

abbrev draws : Draws
draws = (some (replicate 12 1), none)

-- A session whose two directions have the same key.
abbrev loop : Session
loop =
    let s = session_init 1 in
    let c = record (s.encrypt_ctx) { algo = 1 } in
    record s { encrypt_ctx = c; decrypt_ctx = c; handshake_done = true }

loop-Synced : Synced loop loop
unfolding session_init known_algo
loop-Synced = record {
  sends = refl;
  receives = refl;
  algo_known = refl;
  same_algo = refl;
  same_key = refl;
  same_salt = refl;
  same_seq = refl;
}

abbrev texts : List (Header × List ℕ)
texts = (hdr_init 3 0 77, 1 ∷ 2 ∷ []) ∷ (hdr_init 3 1 77, 3 ∷ []) ∷ []

abbrev counter : ℕ
counter = 5

derive_nonce-injective_example : counter ≡ counter
derive_nonce-injective_example =
    derive_nonce-injective (replicate 12 3) counter counter (omega arith) (omega arith) refl

records_delivered_example : Delivers toy loop loop texts
records_delivered_example = records_delivered toy loop loop texts toy-SealsAll loop-Synced

record_decrypt-desyncs_example :
    derive_nonce loop.encrypt_ctx.nonce_salt
      (record_decrypt toy loop (hdr_init 3 0 77) (replicate 20 0)).1.decrypt_seq
    ≢ derive_nonce loop.encrypt_ctx.nonce_salt loop.encrypt_seq
unfolding session_init
record_decrypt-desyncs_example =
    record_decrypt-desyncs toy loop loop (hdr_init 3 0 77) (replicate 20 0) loop-Synced
      (omega arith) (omega arith)

rotate_keys_repeats_example :
    keys (rotate_keys toy draws (rotate_keys toy draws loop).1).1
    ≡ keys (rotate_keys toy draws loop).1
unfolding session_init rotate_keys
rotate_keys_repeats_example =
    rotate_keys_repeats toy draws draws loop (rotate_keys toy draws loop).1 refl refl refl refl refl

session_ends_alike_example :
    ends
      (derive_session_keys toy draws
        (replicate 32 9)
        (replicate 32 1)
        (replicate 32 2)
        (session_init 1)).1
    ≡ ends
        (derive_session_keys toy
          (none, none)
          (replicate 32 9)
          (replicate 32 1)
          (replicate 32 2)
          (session_init 2)).1
unfolding session_init derive_session_keys known_algo
session_ends_alike_example =
    session_ends_alike toy draws (none, none) (replicate 32 9) (replicate 32 1) (replicate 32 2)
      (session_init 1) (session_init 2) refl refl refl
