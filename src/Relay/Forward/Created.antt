-- ===== src/Relay/Forward/Created.antt =====
-- A session from its opening on, by `rc_relay_session_create` and `rc_relay_forward` of src/core/rc_relay.c.
use robov.Prelude.{
  ℕ, ◌+◌, ◌≤◌, ◌<◌, ◌≡◌, ◌≢◌, refl, ap, ◌∙◌, true, Option, some, List, arith, length, u32, add64,
}
use robov.Proto.Bytes.{IsBytes}
use robov.Relay.Forward.Copy.{addressed, readdress-addressed}
use robov.Proto.{header_size, max_payload, hdr_unpack, unpack_ok}
use robov.Relay.{Route, Server, bw_check, route_lookup, session_create, new_session}
use robov.Relay.Sessions.{IsValid}
use robov.Relay.Opening.{session_create_opens, made_routes}
use robov.Relay.Forward.{Endian, Sent, relayed, forward}
use robov.Relay.Forward.Effect.{forward_steps}

-- Right after `rc_relay_session_create` in a well-formed server with room, where the allocations of both
-- routes succeed, a list of at most 1432 bytes whose header is accepted and names the new session's source is
-- relayed, if `sendto` takes it: it goes from the session's socket to the session's destination, with the
-- destination's identifier at its place. The source is not the destination.
pub created_relays :
    (e : Endian) (now later : ℕ) (srv : Server) (ingress egress : ℕ) (ia ea : Option ℕ) (fd : ℕ)
    (pkt : List ℕ)
    → IsBytes pkt
    → IsValid srv
    → srv.session_count < srv.max_sessions
    → ingress ≢ egress
    → header_size ≤ length pkt
    → length pkt ≤ header_size + max_payload
    → (hdr_unpack pkt).0 ≡ unpack_ok
    → (hdr_unpack pkt).1.conn_id ≡ ingress
    → let (id, srv') = session_create true true now srv ingress egress ia ea fd in
      let (r, sent, _) = forward e true later srv' pkt in
      (r ≡ relayed) × (sent ≡ some (record { fd = fd; dst = ea; bytes = addressed e pkt egress }))
unfolding bw_check new_session made_routes
created_relays e now later srv ingress egress ia ea fd pkt bytes v room apart long short ok named =
    let srv' = (session_create true true now srv ingress egress ia ea fd).1 in
    let made = session_create_opens now srv ingress egress ia ea fd v room in
    let (i, slot, routes) = made.2 in
    let route : Route = record { conn_id = ingress; session = i; is_ingress = true } in
    let sess = new_session now (u32 (add64 srv.total_sessions 1)) ingress egress ia ea fd in
    let out = forward_steps e true later srv' pkt route sess (record {
      long = long;
      accepted = ok;
      routed = ap (route_lookup srv') named ∙ routes ingress ∙ ground (arith, apart);
      stored = slot;
      live = refl;
    }) in
    let within : (bw_check later sess (u32 (length pkt))).0 ≡ true = ground (arith, short) in
    let packet : List ℕ → Option Sent = λ bs. some (record { fd = fd; dst = ea; bytes = bs }) in
    (
      out.0 ∙ ground (arith, within, short),
      out.1 ∙ ground (arith, within, short) ∙ ap packet (readdress-addressed pkt bytes e egress),
    )
