-- ===== src/Crypto/Records.antt =====
-- The record layer of src/core/rc_crypto.c from end to end, and what breaks it.
use robov.Prelude.{
  take-length-append, drop-length-append, ℕ, ◌+◌, ◌-◌, ◌^◌, ◌<◌, ◌≤◌, ◌≡◌, ◌≢◌, refl, ap, ap₂, ◌∙◌,
  List, [], ◌∷◌, ◌++◌, true, Option, none, some, arith, length, length-append, add64, ltb, false,
  if_true, if_false,
}
use robov.Proto.{Header, hdr_pack}
use robov.Crypto.{
  Primitives, Session, AeadCtx, tag_len, known_algo, derive_nonce, append_tag, aead_encrypt,
  aead_decrypt, record_encrypt, record_decrypt,
}
use robov.Crypto.Nonce.{derive_nonce-injective}

-- What is relied on of an AEAD cipher with a known algorithm: sealing succeeds, its tag has 16
-- bytes, and unsealing with the same key, nonce and header gives the text back.
pub record Sealed (p : Primitives) (algo : ℕ) (key nonce aad text : List ℕ) : Type 0 where
  pub body : List ℕ
  pub tag : List ℕ
  pub sealed : p.seal algo key nonce aad text ≡ some (body, tag)
  pub tag_length : length tag ≡ tag_len
  pub opened : p.unseal algo key nonce aad body tag ≡ some text

abbrev pub SealsAll : Primitives → Type 0
SealsAll p =
    (algo : ℕ) (key nonce aad text : List ℕ)
    → known_algo algo ≡ true
    → Sealed p algo key nonce aad text

-- `r` receives what `s` sends.
pub record Synced (s r : Session) : Type 0 where
  pub sends : s.handshake_done ≡ true
  pub receives : r.handshake_done ≡ true
  pub algo_known : known_algo s.encrypt_ctx.algo ≡ true
  pub same_algo : r.decrypt_ctx.algo ≡ s.encrypt_ctx.algo
  pub same_key : r.decrypt_ctx.key ≡ s.encrypt_ctx.key
  pub same_salt : r.decrypt_ctx.nonce_salt ≡ s.encrypt_ctx.nonce_salt
  pub same_seq : r.decrypt_seq ≡ s.encrypt_seq

module _ (p : Primitives) {nonce aad text : List ℕ} where
  encrypt-Sealed :
      (ctx : AeadCtx)
      → known_algo ctx.algo ≡ true
      → (w : Sealed p ctx.algo ctx.key nonce aad text)
      → aead_encrypt p ctx nonce text aad ≡ some (w.body ++ w.tag)
  unfolding aead_encrypt append_tag
  encrypt-Sealed ctx k w = rw (k, w.sealed)

  length-Sealed :
      {algo : ℕ} {key : List ℕ} (w : Sealed p algo key nonce aad text)
      → length (w.body ++ w.tag) ≡ length w.body + tag_len
  length-Sealed w = omega (arith, length-append w.body w.tag, w.tag_length)

  not_short :
      {algo : ℕ} {key : List ℕ} (w : Sealed p algo key nonce aad text)
      → ltb (length (w.body ++ w.tag)) tag_len ≡ false
  not_short w = ground (arith, length-Sealed w)

  text_length :
      {algo : ℕ} {key : List ℕ} (w : Sealed p algo key nonce aad text)
      → length (w.body ++ w.tag) - tag_len ≡ length w.body
  text_length w = omega (arith, length-Sealed w)

  decrypt-Sealed :
      (ctx : AeadCtx) {algo : ℕ} {key nonce' : List ℕ}
      → known_algo algo ≡ true
      → ctx.algo ≡ algo
      → ctx.key ≡ key
      → nonce' ≡ nonce
      → (w : Sealed p algo key nonce aad text)
      → aead_decrypt p ctx nonce' (w.body ++ w.tag) aad ≡ some text
  unfolding aead_decrypt
  decrypt-Sealed ctx k e1 e2 e3 w = rw (
    not_short w,
    text_length w,
    take-length-append w.body w.tag,
    drop-length-append w.body w.tag,
    e1,
    e2,
    e3,
    k,
    w.opened,
  )

-- What a synchronised receiver holds after the sender's next record.
next-Synced :
    (s r : Session)
    → Synced s r
    → Synced
        (record s { encrypt_seq = add64 s.encrypt_seq 1 })
        (record r { decrypt_seq = add64 r.decrypt_seq 1 })
next-Synced s r y = record {
  sends = y.sends;
  receives = y.receives;
  algo_known = y.algo_known;
  same_algo = y.same_algo;
  same_key = y.same_key;
  same_salt = y.same_salt;
  same_seq = ap (λ n. add64 n 1) y.same_seq;
}

-- The two calls for one record.
module _ (p : Primitives) (s r : Session) (hdr : Header) (text : List ℕ) (y : Synced s r)
    (w : Sealed p s.encrypt_ctx.algo s.encrypt_ctx.key
      (derive_nonce s.encrypt_ctx.nonce_salt s.encrypt_seq)
      (hdr_pack hdr)
      text) where
  record_sent :
      record_encrypt p s hdr text
      ≡ (some (w.body ++ w.tag), record s { encrypt_seq = add64 s.encrypt_seq 1 })
  unfolding record_encrypt
  record_sent = rw (y.sends, encrypt-Sealed p s.encrypt_ctx y.algo_known w)

  same_nonce :
      derive_nonce r.decrypt_ctx.nonce_salt r.decrypt_seq
      ≡ derive_nonce s.encrypt_ctx.nonce_salt s.encrypt_seq
  same_nonce = ap₂ derive_nonce y.same_salt y.same_seq

  record_received :
      record_decrypt p r hdr (w.body ++ w.tag)
      ≡ (some text, record r { decrypt_seq = add64 r.decrypt_seq 1 })
  unfolding record_decrypt
  record_received =
      if_true _ _ y.receives
      ∙ if_false _ _ (not_short p w)
      ∙ ap (λ o. (o, record r { decrypt_seq = add64 r.decrypt_seq 1 }))
          (decrypt-Sealed p r.decrypt_ctx y.algo_known y.same_algo y.same_key same_nonce w)

-- The records that a sender stores for the given packets in turn, and the texts that a receiver
-- stores for them; nothing once one of them fails.
consed :
    Header → Option (List ℕ) → Option (List (Header × List ℕ)) → Option (List (Header × List ℕ))
consed h none _ = none
consed h (some x) none = none
consed h (some x) (some xs) = some ((h, x) ∷ xs)

pub encrypt_all : Primitives → Session → List (Header × List ℕ) → Option (List (Header × List ℕ))
unfolding consed
encrypt_all p s [] = some []
encrypt_all p s ((h, text) ∷ rest) =
    let (o, s1) = record_encrypt p s h text in
    let others = encrypt_all p s1 rest in consed h o others

pub decrypt_all : Primitives → Session → List (Header × List ℕ) → Option (List (Header × List ℕ))
unfolding consed
decrypt_all p s [] = some []
decrypt_all p s ((h, bytes) ∷ rest) =
    let (o, s1) = record_decrypt p s h bytes in
    let others = decrypt_all p s1 rest in consed h o others

-- The records of a whole stream, as they come out of the sender, are what the receiver takes back.
pub data Delivers (p : Primitives) (s r : Session) (texts : List (Header × List ℕ)) : Type 0 where
  delivers :
      (wire : List (Header × List ℕ))
      → encrypt_all p s texts ≡ some wire
      → decrypt_all p r wire ≡ some texts
      → Delivers p s r texts

-- Any number of packets that a sender encrypts one after the other are stored, and a receiver
-- in step with it decrypts the records, in the order they were sent, to the same texts, if the
-- cipher takes back what it sealed.
pub records_delivered :
    (p : Primitives) (s r : Session) (texts : List (Header × List ℕ))
    → SealsAll p
    → Synced s r
    → Delivers p s r texts
unfolding encrypt_all decrypt_all
records_delivered p s r [] works y = delivers [] refl refl
records_delivered p s r ((h, text) ∷ rest) works y =
    let w =
      works s.encrypt_ctx.algo s.encrypt_ctx.key
        (derive_nonce s.encrypt_ctx.nonce_salt s.encrypt_seq) (hdr_pack h) text y.algo_known in
    let s1 : Session = record s { encrypt_seq = add64 s.encrypt_seq 1 } in
    let r1 : Session = record r { decrypt_seq = add64 r.decrypt_seq 1 } in
    elim (records_delivered p s1 r1 rest works (next-Synced s r y)) [
      | delivers wire sent received ↦
          delivers ((h, w.body ++ w.tag) ∷ wire)
            (ap (λ q. consed h q.0 (encrypt_all p q.1 rest)) (record_sent p s r h text y w)
              ∙ ap (consed h (some (w.body ++ w.tag))) sent)
            (ap (λ q. consed h q.0 (decrypt_all p q.1 wire)) (record_received p s r h text y w)
              ∙ ap (consed h (some text)) received)
    ]

-- A receiver in step with its sender that is handed any 16 bytes or more in between, such as a
-- forged or repeated record, uses another nonce than the sender for the next record, whether or not
-- it refused those bytes.
pub record_decrypt-desyncs :
    (p : Primitives) (s r : Session) (hdr : Header) (bytes : List ℕ)
    → Synced s r
    → s.encrypt_seq < 2 ^ 64
    → tag_len ≤ length bytes
    → derive_nonce s.encrypt_ctx.nonce_salt (record_decrypt p r hdr bytes).1.decrypt_seq
      ≢ derive_nonce s.encrypt_ctx.nonce_salt s.encrypt_seq
unfolding record_decrypt
record_decrypt-desyncs p s r hdr bytes y lt long e =
    let whole : ltb (length bytes) tag_len ≡ false = ground (arith, long) in
    let moved : (record_decrypt p r hdr bytes).1.decrypt_seq ≡ add64 r.decrypt_seq 1 =
      ap (λ (q : Option (List ℕ) × Session). q.1.decrypt_seq)
        (if_true _ _ y.receives ∙ if_false _ _ whole) in
    let same =
      derive_nonce-injective s.encrypt_ctx.nonce_salt (record_decrypt p r hdr bytes).1.decrypt_seq
        s.encrypt_seq (omega (arith, moved)) lt e in
    omega (arith, moved, same, lt, y.same_seq)
