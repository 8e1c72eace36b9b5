-- ===== src/Relay/Examples.antt =====
-- A relay with one session between the connections 7 and 8.
use robov.Prelude.{
  ◌&&◌, ltb, ◌-◌, ◌%◌, ◌^◌, ℕ, ◌+◌, ◌≡◌, refl, true, false, none, some, List, [], ◌∷◌, map, set,
  arith, if◌then◌else◌, ◌==◌,
}
use robov.Proto.{hdr_unpack, hdr_fields, hdr_check, unpack_ok, unpack_bad}
use robov.Proto.Bytes.{be_at, IsBytes, all_bytes, all_bytes-IsBytes}
use robov.Relay.{
  Session, Route, Server, empty_server, blank_session, session_create, session_destroy,
  route_lookup, chain_find, first_where,
}
use robov.Relay.Forward.{little, big, readdress, relayed, forward, purge_idle}
use robov.Relay.Forward.Copy.{addressed}
use robov.Relay.Forward.Wire.{readdress_little}
use robov.Relay.Forward.Effect.{Routed, Treated, forward_lem}
use robov.Relay.Forward.Created.{created_relays}
use robov.Relay.Bandwidth.{Fits}
use robov.Relay.Sessions.{IsValid, active_count}
use robov.Relay.Closing.{session_destroy_lem}
use robov.Relay.Purge.{purge_idle_lem}

abbrev session : Session
session = record blank_session {
  session_id = 1;
  ingress_conn_id = 7;
  egress_conn_id = 8;
  ingress_addr = some 70;
  egress_addr = some 80;
  relay_fd = 4;
  active = true;
  bw_limit_bps = 6553600;
  bw_window_start_ms = 1000;
  last_activity_ms = 1000;
}

abbrev route : Route
route = record { conn_id = 7; session = 0; is_ingress = true }

abbrev server : Server
server = record {
  routes = λ b. route ∷ [];
  sessions = session ∷ blank_session ∷ [];
  session_count = 1;
  max_sessions = 2;
  total_forwarded = 0;
  total_dropped = 0;
  total_sessions = 1;
}

server-IsValid : IsValid server
unfolding active_count
server-IsValid = record { length_all = refl; count_all = refl; max_in = omega arith }

-- A packet of connection 7 with no payload.
abbrev packet : List ℕ
packet =
    82 ∷ 79 ∷ 66 ∷ 79 ∷ 0 ∷ 1 ∷ 0 ∷ 3 ∷ 0 ∷ 0 ∷ 0 ∷ 5 ∷ 0 ∷ 0 ∷ 0 ∷ 0 ∷ 0 ∷ 0 ∷ 0 ∷ 0 ∷ 0 ∷ 0 ∷ 0
    ∷ 9 ∷ 0 ∷ 0 ∷ 0 ∷ 2 ∷ 0 ∷ 0 ∷ 0 ∷ 7 ∷ []

packet-IsBytes : IsBytes packet
unfolding all_bytes
packet-IsBytes = all_bytes-IsBytes packet refl

packet-accepted : (hdr_unpack packet).0 ≡ unpack_ok
unfolding hdr_unpack hdr_fields hdr_check be_at
packet-accepted = refl

packet-Routed : Routed server packet route session
unfolding hdr_unpack hdr_fields hdr_check be_at route_lookup chain_find
packet-Routed = record {
  long = omega arith;
  accepted = refl;
  routed = refl;
  stored = refl;
  live = refl;
}

session-Fits : Fits session
session-Fits = record { used_in = omega arith; limit_in = omega arith }

created_relays_example :
    let (id, srv') = session_create true true 2000 (empty_server 2) 7 8 (some 70) (some 80) 4 in
    let (r, sent, _) = forward big true 2010 srv' packet in
    (r ≡ relayed) × (sent ≡ some (record { fd = 4; dst = some 80; bytes = addressed big packet 8 }))
unfolding hdr_unpack hdr_fields be_at active_count
created_relays_example =
    created_relays big 2000 2010 (empty_server 2) 7 8 (some 70) (some 80) 4 packet packet-IsBytes
      (record { length_all = refl; count_all = refl; max_in = omega arith }) (omega arith) (λ e. cc)
      (omega arith) (omega arith) packet-accepted refl

forward_lem_example :
    let (r, out, srv') = forward little true 2000 server packet in
    Treated little true 2000 packet route session (r, out)
forward_lem_example =
    forward_lem little true 2000 server packet route session packet-IsBytes packet-Routed

readdress_little_example : (hdr_unpack (readdress little packet 8)).0 ≡ unpack_bad
readdress_little_example = readdress_little packet 8 packet-IsBytes (omega arith) packet-accepted

session_destroy_lem_example :
    let srv' = session_destroy server 1 in
    (srv'.session_count + 1 ≡ 1)
    × (srv'.sessions ≡ set server.sessions 0 (record session { active = false }))
    × ((k : ℕ)
        → route_lookup srv' k
          ≡ (if 8 == k then none else if 7 == k then none else route_lookup server k))
unfolding first_where
session_destroy_lem_example = session_destroy_lem server 1 0 session server-IsValid (refl, refl)

purge_idle_lem_example :
    let (k, srv') = purge_idle 9000 server 5000 in
    IsValid srv'
    × (srv'.session_count + k ≡ 1)
    × (srv'.sessions
        ≡ map
            (λ s.
              if s.active && ltb 5000 ((9000 + 2 ^ 64 - s.last_activity_ms) % 2 ^ 64)
              then record s { active = false }
              else s)
            server.sessions)
purge_idle_lem_example = purge_idle_lem 9000 5000 server server-IsValid
