-- ===== src/Relay/Closing.antt =====
-- `rc_relay_session_destroy` and `rc_relay_purge_idle` of src/core/rc_relay.c.
use robov.Prelude.{
  ℕ, ◌+◌, ◌≡◌, refl, sym, ap, ◌∙◌, true, false, none, some, if◌then◌else◌, ◌==◌, get_elem?, set,
}
use robov.Relay.{
  Session, Server, first_where, is_active_as, retire, session_destroy, route_remove, route_lookup,
}
use robov.Relay.Sessions.{IsValid, retire-IsValid, first_where-some, and_left}
use robov.Relay.Routes.{lookup-remove}

retire_routes :
    (i : ℕ) (s : Session) (srv : Server) (k : ℕ)
    → route_lookup (retire i s srv) k ≡ (
        if s.egress_conn_id == k
        then none
        else if s.ingress_conn_id == k
        then none
        else route_lookup srv k)
unfolding retire route_lookup
retire_routes i s srv k =
    lookup-remove (route_remove srv s.ingress_conn_id) s.egress_conn_id k
    ∙ ap (λ r. if s.egress_conn_id == k then none else r) (lookup-remove srv s.ingress_conn_id k)

-- The scan stops at the session at position `i`.
abbrev pub Names : Server → ℕ → ℕ → Session → Type 0
Names srv session_id i s =
    (first_where (is_active_as session_id) srv.sessions ≡ some i)
    × (get_elem? srv.sessions i ≡ some s)

destroyed :
    (srv : Server) (session_id i : ℕ) (s : Session)
    → Names srv session_id i s
    → session_destroy srv session_id ≡ retire i s srv
unfolding session_destroy
destroyed srv session_id i s n =
    ap
      (λ r. elim r [
        | none ↦ srv
        | some k ↦ elim (get_elem? srv.sessions k) [ none ↦ srv | some t ↦ retire k t srv ]
      ])
      n.0
    ∙ ap (λ o. elim o [ none ↦ srv | some t ↦ retire i t srv ]) n.1

pub retire-sessions :
    (i : ℕ) (s : Session) (srv : Server)
    → (retire i s srv).sessions ≡ set srv.sessions i (record s { active = false })
unfolding retire route_remove
retire-sessions i s srv = refl

pub retire-max :
    (i : ℕ) (s : Session) (srv : Server) → (retire i s srv).max_sessions ≡ srv.max_sessions
unfolding retire route_remove
retire-max i s srv = refl

-- `rc_relay_session_destroy`, in a well-formed server where the first active session of that number is `s` at position
-- `i`: the count drops by one, the session is inactive and the others are as they were, and no route of either of its
-- endpoints is left while every other route is as before.
pub session_destroy_lem :
    (srv : Server) (session_id i : ℕ) (s : Session)
    → IsValid srv
    → Names srv session_id i s
    → let srv' = session_destroy srv session_id in
      (srv'.session_count + 1 ≡ srv.session_count)
      × (srv'.sessions ≡ set srv.sessions i (record s { active = false }))
      × ((k : ℕ)
          → route_lookup srv' k ≡ (
              if s.egress_conn_id == k
              then none
              else if s.ingress_conn_id == k
              then none
              else route_lookup srv k))
session_destroy_lem srv session_id i s v n =
    let (t, f, a) = first_where-some (is_active_as session_id) srv.sessions i n.0 in
    let same : s ≡ t = ap (λ o. elim o [ none ↦ s | some y ↦ y ]) (sym n.1 ∙ f) in
    let live : s.active ≡ true = ap (λ y. y.active) same ∙ and_left t.active _ a in
    rw (destroyed srv session_id i s n)
      ((retire-IsValid i s srv n.1 live v).1, retire-sessions i s srv, retire_routes i s srv)
