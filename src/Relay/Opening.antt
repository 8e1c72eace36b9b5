-- ===== src/Relay/Opening.antt =====
-- `rc_relay_session_create` of src/core/rc_relay.c: the slot, the count and the routes of a new session.
use robov.Prelude.{
  ℕ, ◌+◌, ◌<◌, ◌≡◌, refl, ap, ◌∙◌, Bool, true, false, Option, none, some, arith, if◌then◌else◌, leb,
  ◌==◌, length, get_elem?, set, length-set, get_elem?-lt, get_elem?-set_self, Bool-cases, inl, inr,
  add64, u32,
}
use robov.Relay.{
  Session, Server, Route, first_where, is_free, new_session, open_session, session_create,
  route_add, route_lookup,
}
use robov.Relay.Sessions.{
  IsValid, active_count, active_count-set, active_count_max, first_where-some, first_where-free,
  not-true,
}
use robov.Relay.Routes.{lookup-add}

-- The routes of a session that has just been made.
unfoldable pub made_routes : ℕ → ℕ → ℕ → Server → ℕ → Option Route
made_routes ingress egress i srv k =
    if egress == k
    then some (record { conn_id = egress; session = i; is_ingress = false })
    else if ingress == k
    then some (record { conn_id = ingress; session = i; is_ingress = true })
    else route_lookup srv k

open-IsValid :
    (i total : ℕ) (s sess : Session) (srv : Server)
    → get_elem? srv.sessions i ≡ some s
    → s.active ≡ false
    → sess.active ≡ true
    → IsValid srv
    → IsValid (open_session i total sess srv)
      × ((open_session i total sess srv).session_count ≡ srv.session_count + 1)
unfolding open_session
open-IsValid i total s sess srv e a a' v =
    let more = active_count-set srv.sessions i s sess e in
    let most = active_count_max (set srv.sessions i sess) in
    let long = length-set srv.sessions i sess in
    (
      record {
        length_all = long ∙ v.length_all;
        count_all = ground (arith, more, most, long, a, a', v.count_all, v.length_all, v.max_in);
        max_in = v.max_in;
      },
      ground (arith, more, most, long, a, a', v.count_all, v.length_all, v.max_in),
    )

route_add-IsValid :
    (a : Bool) (srv : Server) (conn_id i : ℕ) (ingress : Bool)
    → IsValid srv
    → IsValid (route_add a srv conn_id i ingress)
unfolding route_add
route_add-IsValid true srv conn_id i ingress v = record {
  length_all = v.length_all;
  count_all = v.count_all;
  max_in = v.max_in;
}
route_add-IsValid false srv conn_id i ingress v = v

new_session-active :
    (now id ingress egress : ℕ) (ia ea : Option ℕ) (fd : ℕ)
    → (new_session now id ingress egress ia ea fd).active ≡ true
unfolding new_session
new_session-active now id ingress egress ia ea fd = refl

pub session_create-IsValid :
    (a b : Bool) (now : ℕ) (srv : Server) (ingress egress : ℕ) (ia ea : Option ℕ) (fd : ℕ)
    → IsValid srv
    → IsValid (session_create a b now srv ingress egress ia ea fd).1
unfolding session_create
session_create-IsValid a b now srv ingress egress ia ea fd v =
    elim (Bool-cases (leb srv.max_sessions srv.session_count)) [
      | inl full ↦ rw full v
      | inr room ↦ rw room (at (first_where is_free srv.sessions) refl)
    ]
  where
    total : ℕ
    total = add64 srv.total_sessions 1

    sess : Session
    sess = new_session now (u32 total) ingress egress ia ea fd

    at :
        (r : Option ℕ)
        → first_where is_free srv.sessions ≡ r
        → IsValid
            (elim r as (λ _. ℕ × Server) [
              | none ↦ (0, srv)
              | some i ↦ (
                u32 total,
                route_add b
                    (route_add a (open_session i total sess srv) ingress i true)
                    egress
                    i
                    false,
              )
            ]).1
    at none e = v
    at (some i) e =
        let (s, f, free) = first_where-some is_free srv.sessions i e in
        route_add-IsValid b _ egress i false (
          route_add-IsValid a _ ingress i true
            (open-IsValid i total s sess srv f (not-true s.active free)
              (new_session-active now (u32 total) ingress egress ia ea fd) v).0)

pub session_create_opens :
    (now : ℕ) (srv : Server) (ingress egress : ℕ) (ia ea : Option ℕ) (fd : ℕ)
    → IsValid srv
    → srv.session_count < srv.max_sessions
    → let (id, srv') = session_create true true now srv ingress egress ia ea fd in
      (id ≡ u32 (add64 srv.total_sessions 1))
      × (srv'.session_count ≡ srv.session_count + 1)
      × ((i : ℕ) × (get_elem? srv'.sessions i
            ≡ some (new_session now (u32 (add64 srv.total_sessions 1)) ingress egress ia ea fd))
          × ((k : ℕ) → route_lookup srv' k ≡ made_routes ingress egress i srv k))
unfolding session_create route_lookup open_session made_routes
session_create_opens now srv ingress egress ia ea fd v room =
    let space : active_count srv.sessions < length srv.sessions =
      omega (arith, v.count_all, v.length_all, room) in
    let (i, e) = first_where-free srv.sessions space in
    let (s, f, free) = first_where-some is_free srv.sessions i e in
    let fits : leb srv.max_sessions srv.session_count ≡ false = ground (arith, room) in
    let total = add64 srv.total_sessions 1 in
    let sess = new_session now (u32 total) ingress egress ia ea fd in
    let made = open_session i total sess srv in
    let count =
      (open-IsValid i total s sess srv f (not-true s.active free)
        (new_session-active now (u32 total) ingress egress ia ea fd) v).1 in
    rw (fits, e)
      (
        refl,
        count,
        (
          i,
          get_elem?-set_self srv.sessions i sess (get_elem?-lt srv.sessions i s f),
          λ k.
              lookup-add (route_add true made ingress i true) egress i k false
              ∙ ap
                  (λ r.
                    if egress == k
                    then some (record { conn_id = egress; session = i; is_ingress = false })
                    else r)
                  (lookup-add made ingress i k true),
        ),
      )
