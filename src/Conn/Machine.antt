-- ===== src/Conn/Machine.antt =====
-- The connection state machine: which changes of state there are, in any sequence of calls.
use robov.Prelude.{
  ap, ◌∙◌, if◌then◌else◌, ◌≡◌, ◌≢◌, ◌↔◌, ◌⊎◌, inl, inr, refl, sym, true, none, List, [], ◌∷◌, ◌++◌,
  Bool-cases,
}
use robov.Conn.{
  ConnState, closed, connecting, handshaking, established, closing, Conn, Event, ok,
  valid_transition, set_state, close, failed,
}

-- The transitions of docs and header: up the handshake one step at a time, `closing` after
-- `established`, and to `closed` from everywhere else.
pub data Transition : ConnState → ConnState → Type 0 where
  begin : Transition closed connecting
  greet : Transition connecting handshaking
  settle : Transition handshaking established
  leave : Transition established closing
  abort : {s : ConnState} → s ≢ closed → Transition s closed

valid-Transition : (s t : ConnState) → valid_transition s t ≡ true → Transition s t
unfolding valid_transition
valid-Transition closed closed h = cc
valid-Transition closed connecting h = begin
valid-Transition closed handshaking h = cc
valid-Transition closed established h = cc
valid-Transition closed closing h = cc
valid-Transition connecting closed h = abort (λ e. cc)
valid-Transition connecting connecting h = cc
valid-Transition connecting handshaking h = greet
valid-Transition connecting established h = cc
valid-Transition connecting closing h = cc
valid-Transition handshaking closed h = abort (λ e. cc)
valid-Transition handshaking connecting h = cc
valid-Transition handshaking handshaking h = cc
valid-Transition handshaking established h = settle
valid-Transition handshaking closing h = cc
valid-Transition established closed h = abort (λ e. cc)
valid-Transition established connecting h = cc
valid-Transition established handshaking h = cc
valid-Transition established established h = cc
valid-Transition established closing h = leave
valid-Transition closing closed h = abort (λ e. cc)
valid-Transition closing connecting h = cc
valid-Transition closing handshaking h = cc
valid-Transition closing established h = cc
valid-Transition closing closing h = cc

Transition-valid : {s t : ConnState} → Transition s t → valid_transition s t ≡ true
unfolding valid_transition
Transition-valid begin = refl
Transition-valid greet = refl
Transition-valid settle = refl
Transition-valid leave = refl
Transition-valid (abort {s = closed} n) = absurd (n refl)
Transition-valid (abort {s = connecting} n) = refl
Transition-valid (abort {s = handshaking} n) = refl
Transition-valid (abort {s = established} n) = refl
Transition-valid (abort {s = closing} n) = refl

-- `rc_conn_set_state` succeeds exactly for a transition: it makes it, and calls the callback once, if
-- there is one; any other request is refused, calls nothing and changes nothing.
pub set_state_lem :
    (c : Conn) (new : ConnState)
    → let (r, events, c') = set_state c new in
      ((r ≡ ok) ↔ Transition c.state new)
      × (((r ≡ ok)
            × (events ≡ (if c.on_state then (c.state, new) ∷ [] else []))
            × (c' ≡ record c { state = new }))
          ⊎ ((r ≡ failed) × (events ≡ []) × (c' ≡ c)))
unfolding set_state
set_state_lem c new = elim (Bool-cases (valid_transition c.state new)) [
  | inl e ↦
      let t = valid-Transition c.state new e in rw e ((λ _. t, λ _. refl), inl (refl, refl, refl))
  | inr e ↦ rw e ((λ x. cc, λ t. let v = Transition-valid t in cc), inr (refl, refl, refl))
]

-- Whatever the state, `rc_conn_close` ends in the closed state with no descriptor, and changes nothing
-- else.
pub close_lem : (c : Conn) → (close c).1 ≡ record c { state = closed; fd = none }
unfolding close set_state valid_transition
close_lem c = at c.state
  where
    at :
        (s : ConnState)
        → (close (record c { state = s })).1 ≡ record c { state = closed; fd = none }
    at closed = refl
    at connecting = refl
    at handshaking = refl
    at established = refl
    at closing = refl

-- The calls that a program makes on a connection.
pub data Call : Type 0 where
  set : ConnState → Call
  shut : Call

unfoldable pub call : Conn → Call → List Event × Conn
call c (set new) = let (r, events, c') = set_state c new in (events, c')
call c shut = close c

unfoldable pub run : Conn → List Call → List Event × Conn
unfolding call
run c [] = ([], c)
run c (x ∷ calls) =
    let (events, c') = call c x in let (rest, c'') = run c' calls in (events ++ rest, c'')

-- Only the request for it, in the handshake, makes a connection established.
call_settles :
    (c : Conn) (x : Call)
    → c.state ≢ established
    → (call c x).1.state ≡ established
    → (c.state ≡ handshaking) × (x ≡ set established)
unfolding call
call_settles c shut n e =
    let end : established ≡ closed = sym e ∙ ap (λ (d : Conn). d.state) (close_lem c) in absurd cc
call_settles c (set new) n e = elim (set_state_lem c new).1 [
  | inl done ↦
      let named : new ≡ established = sym (ap (λ (d : Conn). d.state) done.2) ∙ e in
      (from c.state new ((set_state_lem c new).0.0 done.0) named, ap set named)
  | inr kept ↦ absurd (n (sym (ap (λ (d : Conn). d.state) kept.2) ∙ e))
]
  where
    from : (x y : ConnState) → Transition x y → y ≡ established → x ≡ handshaking
    from x y begin e = cc
    from x y greet e = cc
    from x y settle e = refl
    from x y leave e = cc
    from x y (abort n) e = cc

-- Somewhere in the calls there is the request for the established state, and the calls before it have led
-- to the handshake.
pub record Settled (c : Conn) (calls : List Call) : Type 0 where
  pub before : List Call
  pub after : List Call
  pub split : calls ≡ before ++ set established ∷ after
  pub at_handshake : (run c before).1.state ≡ handshaking

established_cases : (s : ConnState) → (s ≡ established) ⊎ (s ≢ established)
established_cases closed = inr (λ e. cc)
established_cases connecting = inr (λ e. cc)
established_cases handshaking = inr (λ e. cc)
established_cases established = inl refl
established_cases closing = inr (λ e. cc)

-- However a connection that is not established is used, by changes of state and closing, and whether it
-- has a callback or not: if it is established afterwards, then one of the calls was the request for that
-- state, and the calls before it had led to the handshaking state.
pub established_by_handshake :
    (c : Conn) (calls : List Call)
    → c.state ≢ established
    → (run c calls).1.state ≡ established
    → Settled c calls
unfolding run
established_by_handshake c [] n e = absurd (n e)
established_by_handshake c (x ∷ calls) n e = elim (established_cases (call c x).1.state) [
  | inl now ↦
      let made = call_settles c x n now in
      record {
        before = [];
        after = calls;
        split = ap (λ y. y ∷ calls) made.1;
        at_handshake = made.0;
      }
  | inr later ↦
      let s = established_by_handshake (call c x).1 calls later e in
      record {
        before = x ∷ s.before;
        after = s.after;
        split = ap (λ cs. x ∷ cs) s.split;
        at_handshake = s.at_handshake;
      }
]
