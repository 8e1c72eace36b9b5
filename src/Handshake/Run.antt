-- ===== src/Handshake/Run.antt =====
-- The handlers of src/core/rc_handshake.c in sequence: the keys of the two ends, and the server's
-- state.
use robov.Prelude.{
  ℕ, ◌≡◌, ◌≢◌, refl, sym, ap, ap₂, ◌∙◌, List, true, false, Bool, Option, none, some,
}
use robov.Crypto.{Primitives, Session, Draws, Status, ok, failed, known_algo, derive_session_keys}
use robov.Crypto.Rotation.{ends, session_ends_alike}
use robov.Handshake.{
  ClientHello, ServerHello, ClientCtx, ServerCtx, client_context, Peer, Result, done, refused,
  queue, numbered, attach, detach, enter, client_hello_of, server_hello_of,
}
use robov.Handshake.Client.{
  finish_queued, finish_signed, finish_derived, finish_shared, server_hello_with,
  process_server_hello,
}
use robov.Handshake.Server.{
  ServerDraws, server_ctx, shello_queued, shello_derived, shello_shared, shello_ticket,
  shello_drawn, shello_keyed, process_client_hello, select_suite,
}

refused-ne_done : refused ≢ done
refused-ne_done e = cc

failed-ne_ok : failed ≢ ok
failed-ne_ok e = cc

-- The session of the object that a handler leaves.
abbrev pub session_of : Result → Session
session_of r = r.2.session

finish_queued-session : (b : Bool) (c : Peer) → session_of (finish_queued (b, c)) ≡ c.session
unfolding finish_queued enter detach
finish_queued-session true c = refl
finish_queued-session false c = refl

finish_signed-session :
    (o : Option (List ℕ)) (c : Peer) → session_of (finish_signed o c) ≡ c.session
unfolding finish_signed queue numbered
finish_signed-session none c = refl
finish_signed-session (some v) c = finish_queued-session _ _

shello_queued-session :
    (ctx : ServerCtx) (b : Bool) (c : Peer) → session_of (shello_queued ctx (b, c)) ≡ c.session
unfolding shello_queued attach
shello_queued-session ctx true c = refl
shello_queued-session ctx false c = refl

finish_derived-session :
    (p : Primitives) (sh : ServerHello) (ctx : ClientCtx) (c : Peer) (q : Status × Session)
    → session_of (finish_derived p sh ctx c q) ≡ q.1
unfolding finish_derived
finish_derived-session p sh ctx c (failed, s) = refl
finish_derived-session p sh ctx c (ok, s) = finish_signed-session _ _

finish_derived-ok :
    (p : Primitives) (sh : ServerHello) (ctx : ClientCtx) (c : Peer) (q : Status × Session)
    → (finish_derived p sh ctx c q).0 ≡ done
    → q.0 ≡ ok
unfolding finish_derived
finish_derived-ok p sh ctx c (failed, s) e = absurd (refused-ne_done e)
finish_derived-ok p sh ctx c (ok, s) e = refl

shello_derived-session :
    (ctx : ServerCtx) (algo : ℕ) (c : Peer) (q : Status × Session)
    → session_of (shello_derived ctx algo c q) ≡ q.1
unfolding shello_derived queue numbered
shello_derived-session ctx algo c (failed, s) = refl
shello_derived-session ctx algo c (ok, s) = shello_queued-session ctx _ _

-- The two ends on the same shared secret.
module _ (p : Primitives) (ds dc : Draws) (sh : ServerHello) (cc : ClientCtx) (sc : ServerCtx)
    (c s : Peer) (algo : ℕ) where
  shared-ends :
      (o : Option (List ℕ))
      → cc.client_random ≡ sc.client_random
      → sh.server_random ≡ sc.server_random
      → known_algo c.session.algo ≡ true
      → known_algo s.session.algo ≡ true
      → (finish_shared p dc sh cc o c).0 ≡ done
      → ends (session_of (finish_shared p dc sh cc o c))
        ≡ ends (session_of (shello_shared p ds sc algo o s))
  unfolding finish_shared shello_shared
  shared-ends none er es kc ks e = absurd (refused-ne_done e)
  shared-ends (some secret) er es kc ks e =
      let mine : Status × Session =
        derive_session_keys p dc secret cc.client_random sh.server_random c.session in
      let theirs : Status × Session =
        derive_session_keys p ds secret sc.client_random sc.server_random s.session in
      ap ends (finish_derived-session p sh cc c mine)
      ∙ session_ends_alike p dc ds secret cc.client_random sh.server_random c.session s.session kc
          ks (finish_derived-ok p sh cc c mine e)
      ∙ ap₂ (λ a b. ends (derive_session_keys p ds secret a b s.session).1) er es
      ∙ sym (ap ends (shello_derived-session sc algo s theirs))

-- What the server draws when nothing fails.
abbrev pub drawn : List ℕ → List ℕ → List ℕ → ℕ → Draws → ServerDraws
drawn priv pub_key rnd ticket salts = record {
  alloc = true;
  keys = some (priv, pub_key);
  random = some rnd;
  ticket = some ticket;
  salts = salts;
}

-- One handshake: the client's context and object, the server's object, and what the server draws.
module _ (p : Primitives) (cc : ClientCtx) (c s : Peer) (priv pub_key rnd : List ℕ) (ticket : ℕ)
    (ds dc : Draws) where
  abbrev pub hello : ClientHello
  hello = client_hello_of cc s.conn.conn_id

  -- The server's context, and the ServerHello that it sends.
  abbrev pub served_ctx : ServerCtx
  unfolding server_ctx client_hello_of
  served_ctx = server_ctx priv pub_key rnd ticket hello

  abbrev pub shello : ServerHello
  shello = server_hello_of served_ctx 1 s.conn.conn_id

  -- The server takes the ClientHello, and the client the ServerHello.
  abbrev pub served : Result
  served = process_client_hello p (drawn priv pub_key rnd ticket ds) hello s

  abbrev pub finished : Result
  finished = process_server_hello p dc shello c

  served-shared :
      served
      ≡ shello_shared p ds served_ctx 1
          (p.x25519 priv cc.client_pubkey)
          (record s { session = record (s.session) { algo = 1 } })
  unfolding process_client_hello shello_keyed shello_drawn shello_ticket select_suite
      client_hello_of server_ctx
  served-shared = refl

  finished-shared :
      c.user_data ≡ client_context cc
      → finished ≡ finish_shared p dc shello cc (p.x25519 cc.client_privkey pub_key) c
  unfolding process_server_hello server_hello_with server_hello_of server_ctx served_ctx
  finished-shared u = ap (λ t. server_hello_with p dc shello t c) u

  -- A client with the context `cc` that takes the ServerHello of the server that took its
  -- ClientHello ends, when it is done, with the same keys, salts and sequence numbers for sending
  -- and for receiving as the server, if X25519 gives both the same secret and the client's
  -- algorithm is a known one.
  pub handshake_shares_ends :
      c.user_data ≡ client_context cc
      → known_algo c.session.algo ≡ true
      → p.x25519 priv cc.client_pubkey ≡ p.x25519 cc.client_privkey pub_key
      → finished.0 ≡ done
      → ends (session_of finished) ≡ ends (session_of served)
  unfolding client_hello_of server_ctx server_hello_of served_ctx known_algo
  handshake_shares_ends u k dh e =
      let mine = finished-shared u in
      ap (λ r. ends (session_of r)) mine
      ∙ shared-ends p ds dc shello cc served_ctx c
          (record s { session = record (s.session) { algo = 1 } }) 1
          (p.x25519 cc.client_privkey pub_key) refl refl k refl
          (sym (ap (λ (r : Result). r.0) mine) ∙ e)
      ∙ sym (
          ap
            (λ o. ends (
              session_of (
                shello_shared p ds served_ctx 1 o
                  (record s { session = record (s.session) { algo = 1 } }))))
            dh)
      ∙ sym (ap (λ r. ends (session_of r)) served-shared)
