-- ===== src/Relay/Forward/Effect.antt =====
-- What `rc_relay_forward` of src/core/rc_relay.c does to a packet.
use robov.Prelude.{
  sym, ◌^◌, ◌%◌, ◌-◌, ℕ, ◌+◌, ◌≤◌, ◌<◌, ◌≡◌, ap, ◌∙◌, Bool, true, false, not, ◌&&◌, Option, none,
  some, List, arith, if◌then◌else◌, ltb, leb, length, get_elem?, u32, Bool-cases, inl, inr,
}
use mathlib.Core.Path.{subst}
use robov.Proto.Bytes.{IsBytes}
use robov.Relay.Forward.Copy.{addressed, readdress-addressed}
use robov.Proto.{Header, header_size, max_payload, hdr_unpack, unpack_ok}
use robov.Relay.{Session, Route, Server, bw_check, route_lookup}
use robov.Relay.Forward.{
  Endian, readdress, Sent, Forwarded, relayed, dropped, unroutable, overflow, forward_on,
  forward_session, forward_route, forward_header, forward,
}

-- The packet has a header, and a route to an active session.
pub record Routed (srv : Server) (pkt : List ℕ) (route : Route) (sess : Session) : Type 0 where
  pub long : header_size ≤ length pkt
  pub accepted : (hdr_unpack pkt).0 ≡ unpack_ok
  pub routed : route_lookup srv (hdr_unpack pkt).1.conn_id ≡ some route
  pub stored : get_elem? srv.sessions route.session ≡ some sess
  pub live : sess.active ≡ true

forward-on :
    (e : Endian) (sendto : Bool) (now : ℕ) (srv : Server) (pkt : List ℕ) (route : Route)
    (sess : Session)
    → Routed srv pkt route sess
    → forward e sendto now srv pkt ≡ forward_on e sendto now srv pkt (hdr_unpack pkt).1 route sess
unfolding forward forward_header forward_route forward_session
forward-on e sendto now srv pkt route sess r =
    let hdr = (hdr_unpack pkt).1 in
    ap
      (λ b.
        if b
        then (dropped, none, srv)
        else forward_header e sendto now srv pkt hdr (hdr_unpack pkt).0)
      {y = false} (ground (arith, r.long))
    ∙ ap (forward_header e sendto now srv pkt hdr) r.accepted
    ∙ ap (forward_route e sendto now srv pkt hdr) r.routed
    ∙ ap (forward_session e sendto now srv pkt hdr route) r.stored
    ∙ ap
        (λ b. if b then forward_on e sendto now srv pkt hdr route sess else (unroutable, none, srv))
        r.live

-- The other end of a session.
abbrev pub target : Route → Session → Option ℕ × ℕ
target route sess =
    if route.is_ingress
    then (sess.egress_addr, sess.egress_conn_id)
    else (sess.ingress_addr, sess.ingress_conn_id)

bw_check_keeps :
    (now : ℕ) (sess : Session) (len : ℕ) (route : Route)
    → let s = (bw_check now sess len).1 in
      (s.relay_fd ≡ sess.relay_fd)
      × (s.egress_addr ≡ sess.egress_addr)
      × (s.ingress_addr ≡ sess.ingress_addr)
      × (s.egress_conn_id ≡ sess.egress_conn_id)
      × (s.ingress_conn_id ≡ sess.ingress_conn_id)
unfolding bw_check
bw_check_keeps now sess len route =
    (ground arith, ground arith, ground arith, ground arith, ground arith)

forward_on_lem :
    (e : Endian) (sendto : Bool) (now : ℕ) (srv : Server) (pkt : List ℕ) (hdr : Header)
    (route : Route) (sess : Session)
    → let (r, sent, srv') = forward_on e sendto now srv pkt hdr route sess in
      let within = (bw_check now sess (u32 (length pkt))).0 in
      let (dst, conn_id) = target route sess in
      (r ≡ (
        if not within
        then dropped
        else if ltb (header_size + max_payload) (length pkt)
        then overflow
        else if sendto
        then relayed
        else dropped))
      × (sent ≡ (
          if within && (leb (length pkt) (header_size + max_payload) && sendto)
          then some (record { fd = sess.relay_fd; dst = dst; bytes = readdress e pkt conn_id })
          else none))
unfolding forward_on
forward_on_lem e sendto now srv pkt hdr route sess =
    let (fd, ea, ia, ec, ic) = bw_check_keeps now sess (u32 (length pkt)) route in
    (ground arith, ground (arith, fd, ea, ia, ec, ic))

pub forward_steps :
    (e : Endian) (sendto : Bool) (now : ℕ) (srv : Server) (pkt : List ℕ) (route : Route)
    (sess : Session)
    → Routed srv pkt route sess
    → let (r, sent, srv') = forward e sendto now srv pkt in
      let within = (bw_check now sess (u32 (length pkt))).0 in
      let (dst, conn_id) = target route sess in
      (r ≡ (
        if not within
        then dropped
        else if ltb (header_size + max_payload) (length pkt)
        then overflow
        else if sendto
        then relayed
        else dropped))
      × (sent ≡ (
          if within && (leb (length pkt) (header_size + max_payload) && sendto)
          then some (record { fd = sess.relay_fd; dst = dst; bytes = readdress e pkt conn_id })
          else none))
forward_steps e sendto now srv pkt route sess r =
    let (on-0, on-1) = forward_on_lem e sendto now srv pkt (hdr_unpack pkt).1 route sess in
    (
      ap (λ x. x.0) (forward-on e sendto now srv pkt route sess r) ∙ on-0,
      ap (λ x. x.1) (forward-on e sendto now srv pkt route sess r) ∙ on-1,
    )

-- The bytes of the session's window of one second with the packet, where a window that is over counts
-- as empty.
abbrev pub spent : ℕ → Session → ℕ → ℕ
spent now sess len =
    ((if leb 1000 ((now + 2 ^ 64 - sess.bw_window_start_ms) % 2 ^ 64)
        then 0
        else sess.bw_bytes_this_sec)
      + len % 2 ^ 32)
    % 2 ^ 64

bw_check-spent :
    (now : ℕ) (sess : Session) (len : ℕ)
    → (bw_check now sess (u32 len)).0 ≡ leb (spent now sess len) sess.bw_limit_bps
unfolding bw_check
bw_check-spent now sess len = ground arith

-- What becomes of a packet with a route to a session, and what is sent: over the limit it is dropped,
-- above 1432 bytes it overruns the buffer, and else it goes, if `sendto` takes it, from the session's
-- socket to the other end, with that end's identifier at its place.
pub data Treated (e : Endian) (sendto : Bool) (now : ℕ) (pkt : List ℕ) (route : Route)
    (sess : Session) : Forwarded × Option Sent → Type 0 where
  over_limit :
      sess.bw_limit_bps < spent now sess (length pkt)
      → Treated e sendto now pkt route sess (dropped, none)
  too_long :
      spent now sess (length pkt) ≤ sess.bw_limit_bps
      → 1432 < length pkt
      → Treated e sendto now pkt route sess (overflow, none)
  unsent :
      spent now sess (length pkt) ≤ sess.bw_limit_bps
      → length pkt ≤ 1432
      → sendto ≡ false
      → Treated e sendto now pkt route sess (dropped, none)
  passed_on :
      spent now sess (length pkt) ≤ sess.bw_limit_bps
      → length pkt ≤ 1432
      → sendto ≡ true
      → Treated e sendto now pkt route sess (
        relayed,
        some (record {
          fd = sess.relay_fd;
          dst = (target route sess).0;
          bytes = addressed e pkt (target route sess).1;
        }),
      )

-- A list of bytes with a route to an active session is dropped over the bandwidth limit, overruns the
-- buffer if it is longer than 1432 bytes, is dropped if `sendto` fails, and is otherwise sent from the
-- session's socket to the session's other end: the first 28 bytes come from their own places on a
-- big-endian machine and from the opposite ones in their field on a little-endian machine, then comes the
-- identifier of that end in network order, and then what follows the header.
pub forward_lem :
    (e : Endian) (sendto : Bool) (now : ℕ) (srv : Server) (pkt : List ℕ) (route : Route)
    (sess : Session)
    → IsBytes pkt
    → Routed srv pkt route sess
    → let (r, out, srv') = forward e sendto now srv pkt in
      Treated e sendto now pkt route sess (r, out)
forward_lem e sendto now srv pkt route sess bytes routed =
    let (answer, given) = forward_steps e sendto now srv pkt route sess routed in
    let within : (bw_check now sess (u32 (length pkt))).0
        ≡ leb (spent now sess (length pkt)) sess.bw_limit_bps =
      bw_check-spent now sess (length pkt) in
    elim (Bool-cases (leb (spent now sess (length pkt)) sess.bw_limit_bps)) [
      | inr w ↦
          treat dropped none (answer ∙ ground (arith, within, w))
            (given ∙ ground (arith, within, w)) (over_limit (ground (arith, w)))
      | inl w ↦ elim (Bool-cases (leb (length pkt) 1432)) [
        | inr l ↦
            treat overflow none (answer ∙ ground (arith, within, w, l))
              (given ∙ ground (arith, within, w, l))
              (too_long (ground (arith, w)) (ground (arith, l)))
        | inl l ↦ elim (Bool-cases sendto) [
          | inr f ↦
              treat dropped none (answer ∙ ground (arith, within, w, l, f))
                (given ∙ ground (arith, within, w, l, f))
                (unsent (ground (arith, w)) (ground (arith, l)) f)
          | inl t ↦
              treat relayed (some (packet (addressed e pkt (target route sess).1)))
                (answer ∙ ground (arith, within, w, l, t))
                (given
                  ∙ ground (arith, within, w, l, t)
                  ∙ ap (λ bs. some (packet bs))
                      (readdress-addressed pkt bytes e (target route sess).1))
                (passed_on (ground (arith, w)) (ground (arith, l)) t)
        ]
      ]
    ]
  where
    packet : List ℕ → Sent
    packet bs = record { fd = sess.relay_fd; dst = (target route sess).0; bytes = bs }

    treat :
        (x : Forwarded) (y : Option Sent)
        → (forward e sendto now srv pkt).0 ≡ x
        → (forward e sendto now srv pkt).1 ≡ y
        → Treated e sendto now pkt route sess (x, y)
        → Treated e sendto now pkt route sess
            ((forward e sendto now srv pkt).0, (forward e sendto now srv pkt).1)
    treat x y p q t =
        subst (λ r. Treated e sendto now pkt route sess (r, (forward e sendto now srv pkt).1))
          (sym p) (subst (λ o. Treated e sendto now pkt route sess (x, o)) (sym q) t)
