-- ===== src/Handshake/State.antt =====
-- The state of the server's connection during a handshake of src/core/rc_handshake.c.
use robov.Prelude.{
  ℕ, ◌≡◌, ◌≢◌, refl, sym, ap, ◌∙◌, List, true, false, Bool, Option, none, some, if_true, if_false,
  Bool-cases, inl, inr,
}
use robov.Conn
use robov.Conn.{
  Conn, Event, ConnState, closed, connecting, handshaking, established, closing, is_state,
  valid_transition, set_state,
}
use robov.Crypto.{Primitives, Session, Draws, Status, ok, failed}
use robov.Handshake.{
  ClientHello, Finish, ServerCtx, Context, no_context, client_context, server_context, Peer, Result,
  queue, numbered, attach, detach, enter,
}
use robov.Handshake.Server.{
  ServerDraws, shello_queued, shello_derived, shello_shared, shello_ticket, shello_drawn,
  shello_keyed, process_client_hello, verify_ok, finish_expected, finish_with, process_finish,
}

-- The state of the connection that a handler leaves.
abbrev pub state_of : Result → ConnState
state_of r = r.2.conn.state

shello_queued-state :
    (ctx : ServerCtx) (b : Bool) (c : Peer) → state_of (shello_queued ctx (b, c)) ≡ c.conn.state
unfolding shello_queued attach
shello_queued-state ctx true c = refl
shello_queued-state ctx false c = refl

shello_derived-state :
    (ctx : ServerCtx) (algo : ℕ) (c : Peer) (q : Status × Session)
    → state_of (shello_derived ctx algo c q) ≡ c.conn.state
unfolding shello_derived queue numbered
shello_derived-state ctx algo c (failed, s) = refl
shello_derived-state ctx algo c (ok, s) = shello_queued-state ctx _ _

module _ (p : Primitives) (ch : ClientHello) where
  shello_shared-state :
      (draws : Draws) (ctx : ServerCtx) (algo : ℕ) (o : Option (List ℕ)) (c : Peer)
      → state_of (shello_shared p draws ctx algo o c) ≡ c.conn.state
  unfolding shello_shared
  shello_shared-state draws ctx algo none c = refl
  shello_shared-state draws ctx algo (some secret) c = shello_derived-state ctx algo c _

  ticketed-state :
      (salts : Draws) (priv pub_key rnd : List ℕ) (ticket : Option ℕ) (c : Peer)
      → state_of (shello_ticket p salts priv pub_key rnd ticket ch c) ≡ c.conn.state
  unfolding shello_ticket
  ticketed-state salts priv pub_key rnd none c = refl
  ticketed-state salts priv pub_key rnd (some id) c =
      shello_shared-state salts _ _ (p.x25519 priv _) _

  drawn-state :
      (d : ServerDraws) (priv pub_key : List ℕ) (rnd : Option (List ℕ)) (c : Peer)
      → state_of (shello_drawn p d priv pub_key rnd ch c) ≡ c.conn.state
  unfolding shello_drawn
  drawn-state d priv pub_key none c = refl
  drawn-state d priv pub_key (some rnd) c = ticketed-state d.salts priv pub_key rnd d.ticket c

  keyed-state :
      (d : ServerDraws) (keys : Option (List ℕ × List ℕ)) (c : Peer)
      → state_of (shello_keyed p d keys ch c) ≡ c.conn.state
  unfolding shello_keyed
  keyed-state d none c = refl
  keyed-state d (some (priv, pub_key)) c = drawn-state d priv pub_key d.random c

  client_hello-state :
      (d : ServerDraws) (c : Peer) → state_of (process_client_hello p d ch c) ≡ c.conn.state
  unfolding process_client_hello
  client_hello-state d c = elim (Bool-cases d.alloc) [
    | inl h ↦ ap state_of (if_true _ _ h) ∙ keyed-state d d.keys c
    | inr h ↦ ap state_of (if_false _ _ h)
  ]

not-established : (s : ConnState) → s ≢ handshaking → valid_transition s established ≡ false
unfolding valid_transition is_state
not-established closed n = refl
not-established connecting n = refl
not-established handshaking n = absurd (n refl)
not-established established n = refl
not-established closing n = refl

enter-state :
    (c : Peer) → c.conn.state ≢ handshaking → (enter c established).1.conn.state ≡ c.conn.state
unfolding enter set_state
enter-state c n =
    ap (λ (q : Conn.Status × List Event × Conn). q.2.state)
      (if_false _ _ (not-established c.conn.state n))

finish_expected-state :
    (o : Option (List ℕ)) (f : Finish) (c : Peer)
    → c.conn.state ≢ handshaking
    → state_of (finish_expected o f c) ≡ c.conn.state
unfolding finish_expected detach
finish_expected-state none f c n = refl
finish_expected-state (some e) f c n = elim (Bool-cases (verify_ok e f.verify_data)) [
  | inl h ↦ ap state_of (if_true _ _ h) ∙ enter-state c n
  | inr h ↦ ap state_of (if_false _ _ h)
]

finish_with-state :
    (p : Primitives) (f : Finish) (t : Context) (c : Peer)
    → c.conn.state ≢ handshaking
    → state_of (finish_with p f t c) ≡ c.conn.state
unfolding finish_with
finish_with-state p f no_context c n = refl
finish_with-state p f (client_context ctx) c n = refl
finish_with-state p f (server_context ctx) c n = finish_expected-state _ f c n

-- A server connection that is not in the handshaking state keeps its state through the ClientHello
-- and the Finish message, whatever they hold and whether or not the two handlers return success.
pub server_state_kept :
    (p : Primitives) (d : ServerDraws) (ch : ClientHello) (f : Finish) (c : Peer)
    → c.conn.state ≢ handshaking
    → state_of (process_finish p f (process_client_hello p d ch c).2) ≡ c.conn.state
unfolding process_finish
server_state_kept p d ch f c n =
    let kept = client_hello-state p ch d c in
    finish_with-state p f _ (process_client_hello p d ch c).2 (λ e. n (sym kept ∙ e)) ∙ kept
