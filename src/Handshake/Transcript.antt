-- ===== src/Handshake/Transcript.antt =====
-- What the two ends of src/core/rc_handshake.c authenticate, and what the server does with it.
use robov.Prelude.{
  ℕ, ◌/◌, ◌%◌, ◌^◌, ◌≡◌, ◌≢◌, ◌⊎◌, refl, sym, ap, ◌∙◌, List, [], ◌++◌, true, false, Bool-cases, inl,
  inr, if_true, if_false, some, arith, length, get_or,
}
use robov.Proto.{hdr_pack, hdr_init}
use robov.Proto.Bytes.{be_bytes}
use robov.Conn.{established}
use robov.Crypto.{Primitives}
use robov.Handshake.{
  ClientCtx, ServerCtx, ServerHello, Finish, Peer, Result, done, refused, server_context,
  hello_header, build_transcript, client_hello_seen, client_hello_rebuilt, server_hello_seen,
  server_hello_of, enter, detach,
}
use robov.Handshake.Server.{
  verify_ok, finish_expected, expected_verify, finish_with, process_finish,
}
use robov.Handshake.Verify.{Bytes, verify_ok_iff}

-- An outcome other than `done`.
refused-ne_done : refused ≢ done
refused-ne_done e = cc

-- An array of 32 bytes.
pub record IsMac (v : List ℕ) : Type 0 where
  pub mac_length : length v ≡ 32
  pub mac_bytes : Bytes v

module _ (f : Finish) (c : Peer) (e : List ℕ) where
  -- The object after the Finish is accepted.
  pub accepted : Result
  unfolding enter detach
  accepted = let (ev, c1) = enter c established in (done, ev, detach c1)

  finish_expected-same :
      IsMac e → IsMac (f.verify_data) → e ≡ f.verify_data → finish_expected (some e) f c ≡ accepted
  unfolding finish_expected accepted
  finish_expected-same he hf q =
      if_true _ _
        ((verify_ok_iff e f.verify_data he.mac_length hf.mac_length he.mac_bytes hf.mac_bytes).1 q)

  finish_expected-other :
      IsMac e
      → IsMac (f.verify_data)
      → e ≢ f.verify_data
      → finish_expected (some e) f c ≡ (refused, [], c)
  unfolding finish_expected
  finish_expected-other he hf n = if_false _ _ (differs (Bool-cases (verify_ok e f.verify_data)))
    where
      differs :
          (verify_ok e f.verify_data ≡ true) ⊎ (verify_ok e f.verify_data ≡ false)
          → verify_ok e f.verify_data ≡ false
      differs (inr h) = h
      differs (inl h) = absurd (
          n (
            (verify_ok_iff e f.verify_data he.mac_length hf.mac_length he.mac_bytes hf.mac_bytes).0
              h))

-- The Finish message at a server whose own HMAC of the transcript is `e`.
module _ (p : Primitives) (f : Finish) (c : Peer) (ctx : ServerCtx) (e : List ℕ) where
  finish-expected :
      c.user_data ≡ server_context ctx
      → expected_verify p ctx c ≡ some e
      → process_finish p f c ≡ finish_expected (some e) f c
  unfolding process_finish finish_with
  finish-expected u h = ap (λ t. finish_with p f t c) u ∙ ap (λ o. finish_expected o f c) h

  -- A server that holds its context and computes the HMAC `e` accepts a Finish message with
  -- `e`, on which it enters the established state as far as the state machine lets it and drops
  -- its context, and answers any other one with -1 and no change, both arrays being of 32 bytes.
  pub process_finish_lem :
      c.user_data ≡ server_context ctx
      → expected_verify p ctx c ≡ some e
      → IsMac e
      → IsMac (f.verify_data)
      → (e ≡ f.verify_data → process_finish p f c ≡ accepted f c e)
        × (e ≢ f.verify_data → process_finish p f c ≡ (refused, [], c))
  process_finish_lem u h he hf = (
    λ q. finish-expected u h ∙ finish_expected-same f c e he hf q,
    λ n. finish-expected u h ∙ finish_expected-other f c e he hf n,
  )

-- The two transcripts of one handshake: what the client authenticates with the context `cc`, and
-- what the server does with `sc`.
module _ (cc : ClientCtx) (sc : ServerCtx) (sh sh' : ServerHello) (id id' : ℕ) where
  abbrev pub client_transcript : List ℕ
  client_transcript = client_hello_seen cc id ++ server_hello_seen sh id

  abbrev pub server_transcript : List ℕ
  server_transcript = client_hello_rebuilt sc id' ++ server_hello_seen sh' id'

  -- The byte at place 27 is the low byte of the flags of the ClientHello's header.
  flags_sent : (seq : ℕ) → cc.hello_hdr ≡ hello_header seq id → get_or client_transcript 27 0 ≡ 16
  unfolding client_hello_seen hdr_pack be_bytes hello_header
  flags_sent seq h = ap (λ x. x.flags / 256 ^ 0 % 256) h

  flags_rebuilt : get_or server_transcript 27 0 ≡ 0
  unfolding client_hello_rebuilt hdr_pack be_bytes hdr_init
  flags_rebuilt = refl

  -- What the client authenticates, with the header of a ClientHello that was sent, is never what
  -- the server authenticates, whatever the two ends have exchanged: the server builds the ClientHello
  -- again without its flags.
  pub transcripts_differ :
      (seq : ℕ) → cc.hello_hdr ≡ hello_header seq id → client_transcript ≢ server_transcript
  transcripts_differ seq h e =
      omega (arith, sym (flags_sent seq h) ∙ ap (λ t. get_or t 27 0) e ∙ flags_rebuilt)

-- A client that holds the context `cc` and signs its transcript with the master secret that the
-- server has too is refused by the server, which answers -1 and stays as it is, if HMAC keeps the
-- two transcripts apart: so no client that follows the code completes the handshake.
pub finish_rejected :
    (p : Primitives) (c : Peer) (cc : ClientCtx) (sc : ServerCtx) (sh : ServerHello) (f : Finish)
    (e : List ℕ) (id seq : ℕ)
    → c.user_data ≡ server_context sc
    → cc.hello_hdr ≡ hello_header seq id
    → build_transcript p (client_hello_seen cc id) (server_hello_seen sh id) c.session.master_secret
      ≡ some (f.verify_data)
    → expected_verify p sc c ≡ some e
    → IsMac e
    → IsMac (f.verify_data)
    → (e ≡ f.verify_data
        → client_transcript cc sc sh
            (server_hello_of sc c.session.algo c.conn.conn_id)
            id
            c.conn.conn_id
          ≡ server_transcript cc sc sh
              (server_hello_of sc c.session.algo c.conn.conn_id)
              id
              c.conn.conn_id)
    → process_finish p f c ≡ (refused, [], c)
finish_rejected p c cc sc sh f e id seq u h signed x he hf apart =
    (process_finish_lem p f c sc e u x he hf).1 (λ q.
      transcripts_differ cc sc sh (server_hello_of sc c.session.algo c.conn.conn_id) id
        c.conn.conn_id seq h (apart q))
