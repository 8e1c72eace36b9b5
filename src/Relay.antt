-- ===== src/Relay.antt =====
-- src/core/rc_relay.c: the relay's sessions, its routing table and the bandwidth check. A pointer to a
-- session is its position in the session array; the routes of a bucket are the list of its chain.
pub mod Forward
pub mod Routes
pub mod Sessions
pub mod Opening
pub mod Closing
pub mod Purge
pub mod Bandwidth
mod Examples
use robov.Prelude.{
  ℕ, zero, suc, ◌+◌, ◌*◌, ◌/◌, ◌%◌, ◌^◌, Bool, true, false, not, ◌&&◌, Option, none, some, List, [],
  ◌∷◌, if◌then◌else◌, ltb, leb, ◌==◌, get_elem?, set, replicate, bit_xor, u32, add32, sub32, mul32,
  add64, sub64,
}

abbrev pub default_sessions : ℕ
default_sessions = 100000

abbrev pub max_streams : ℕ
max_streams = 16

abbrev pub bw_interval_sec : ℕ
bw_interval_sec = 1

abbrev pub bw_limit : ℕ
bw_limit = 6553600

abbrev pub route_buckets : ℕ
route_buckets = 65537

-- `rc_relay_stream_t`
pub record Stream : Type 0 where
  pub stream_id : ℕ
  pub bytes_forwarded : ℕ
  pub pkts_forwarded : ℕ
  pub bytes_dropped : ℕ
  pub current_bps : ℕ
  pub active : Bool

-- `rc_relay_session_t`. An address is a number, and none of the zeroed storage with length 0.
pub record Session : Type 0 where
  pub session_id : ℕ
  pub ingress_conn_id : ℕ
  pub egress_conn_id : ℕ
  pub ingress_addr : Option ℕ
  pub egress_addr : Option ℕ
  pub relay_fd : ℕ
  pub streams : List Stream
  pub stream_count : ℕ
  pub bw_bytes_this_sec : ℕ
  pub bw_limit_bps : ℕ
  pub bw_window_start_ms : ℕ
  pub active : Bool
  pub created_ms : ℕ
  pub last_activity_ms : ℕ
  pub bytes_forwarded : ℕ
  pub pkts_forwarded : ℕ
  pub bytes_dropped : ℕ

-- `rc_relay_route_t`
pub record Route : Type 0 where
  pub conn_id : ℕ
  pub session : ℕ
  pub is_ingress : Bool

-- `rc_relay_server_t`
pub record Server : Type 0 where
  pub routes : ℕ → List Route
  pub sessions : List Session
  pub session_count : ℕ
  pub max_sessions : ℕ
  pub total_forwarded : ℕ
  pub total_dropped : ℕ
  pub total_sessions : ℕ

-- `relay_hash`
pub relay_hash : ℕ → ℕ
relay_hash key =
    let h1 = mul32 (bit_xor 2166136261 (key / 2 ^ 16)) 16777619 in
    mul32 (bit_xor h1 (key % 2 ^ 16)) 16777619

pub bucket_of : ℕ → ℕ
unfolding relay_hash
bucket_of conn_id = relay_hash conn_id % route_buckets

abbrev pub blank_stream : Stream
blank_stream = record {
  stream_id = 0;
  bytes_forwarded = 0;
  pkts_forwarded = 0;
  bytes_dropped = 0;
  current_bps = 0;
  active = false;
}

-- A session after `memset`.
abbrev pub blank_session : Session
blank_session = record {
  session_id = 0;
  ingress_conn_id = 0;
  egress_conn_id = 0;
  ingress_addr = none;
  egress_addr = none;
  relay_fd = 0;
  streams = replicate max_streams blank_stream;
  stream_count = 0;
  bw_bytes_this_sec = 0;
  bw_limit_bps = 0;
  bw_window_start_ms = 0;
  active = false;
  created_ms = 0;
  last_activity_ms = 0;
  bytes_forwarded = 0;
  pkts_forwarded = 0;
  bytes_dropped = 0;
}

abbrev pub empty_server : ℕ → Server
empty_server n = record {
  routes = λ b. [];
  sessions = replicate n blank_session;
  session_count = 0;
  max_sessions = n;
  total_forwarded = 0;
  total_dropped = 0;
  total_sessions = 0;
}

-- `rc_relay_create`, where the two allocations and the two locks succeed or not.
pub create : Bool → Bool → Bool → ℕ → Option Server
create calloc_server calloc_sessions mutex_init max_sessions =
    if calloc_server && (calloc_sessions && mutex_init)
    then some (empty_server (if max_sessions == 0 then default_sessions else max_sessions))
    else none

abbrev pub update : (ℕ → List Route) → ℕ → List Route → ℕ → List Route
update f b rs k = if b == k then rs else f k

-- `route_add`, where its `calloc` succeeds or not.
pub route_add : Bool → Server → ℕ → ℕ → Bool → Server
unfolding bucket_of
route_add calloc srv conn_id session ingress =
    if calloc
    then (let b = bucket_of conn_id in
        let route : Route = record { conn_id = conn_id; session = session; is_ingress = ingress } in
        record srv { routes = update srv.routes b (route ∷ srv.routes b) })
    else srv

pub chain_find : List Route → ℕ → Option Route
chain_find [] conn_id = none
chain_find (r ∷ rs) conn_id =
    let rest = chain_find rs conn_id in if r.conn_id == conn_id then some r else rest

-- `route_lookup`
pub route_lookup : Server → ℕ → Option Route
unfolding bucket_of chain_find
route_lookup srv conn_id = chain_find (srv.routes (bucket_of conn_id)) conn_id

pub chain_remove : List Route → ℕ → List Route
chain_remove [] conn_id = []
chain_remove (r ∷ rs) conn_id =
    let rest = chain_remove rs conn_id in if r.conn_id == conn_id then rest else r ∷ rest

-- `route_remove`
pub route_remove : Server → ℕ → Server
unfolding bucket_of chain_remove
route_remove srv conn_id =
    let b = bucket_of conn_id in
    record srv { routes = update srv.routes b (chain_remove (srv.routes b) conn_id) }

abbrev pub later : Option ℕ → Option ℕ
later none = none
later (some i) = some (suc i)

-- The first position whose session passes a test.
pub first_where : (Session → Bool) → List Session → Option ℕ
first_where p [] = none
first_where p (s ∷ ss) = elim (p s) [ true ↦ some 0 | false ↦ later (first_where p ss) ]

abbrev pub is_free : Session → Bool
is_free s = not s.active

abbrev pub is_active_as : ℕ → Session → Bool
is_active_as session_id s = s.active && (s.session_id == session_id)

pub new_session : ℕ → ℕ → ℕ → ℕ → Option ℕ → Option ℕ → ℕ → Session
new_session now session_id ingress egress ingress_addr egress_addr relay_fd = record blank_session {
  session_id = session_id;
  ingress_conn_id = ingress;
  egress_conn_id = egress;
  ingress_addr = ingress_addr;
  egress_addr = egress_addr;
  relay_fd = relay_fd;
  active = true;
  created_ms = now;
  last_activity_ms = now;
  bw_limit_bps = bw_limit;
  bw_window_start_ms = now;
}

-- The session of `rc_relay_session_create` in its slot.
pub open_session : ℕ → ℕ → Session → Server → Server
open_session i total sess srv = record srv {
  sessions = set srv.sessions i sess;
  session_count = add32 srv.session_count 1;
  total_sessions = total;
}

-- `rc_relay_session_create`: the session's identifier, or 0. The two `calloc` are those of the routes,
-- whose failure it does not test.
pub session_create : Bool → Bool → ℕ → Server → ℕ → ℕ → Option ℕ → Option ℕ → ℕ → ℕ × Server
unfolding first_where new_session open_session route_add
session_create calloc_in calloc_out now srv ingress egress ingress_addr egress_addr relay_fd =
    if leb srv.max_sessions srv.session_count
    then (0, srv)
    else elim (first_where is_free srv.sessions) [
      | none ↦ (0, srv)
      | some i ↦
          let total = add64 srv.total_sessions 1 in
          let sess = new_session now (u32 total) ingress egress ingress_addr egress_addr relay_fd in
          let srv1 = open_session i total sess srv in
          let srv2 = route_add calloc_in srv1 ingress i true in
          (u32 total, route_add calloc_out srv2 egress i false)
    ]

-- The end of session `s` at position `i`, as `rc_relay_session_destroy` and `rc_relay_purge_idle` have it.
pub retire : ℕ → Session → Server → Server
unfolding route_remove
retire i s srv =
    let srv1 = route_remove (route_remove srv s.ingress_conn_id) s.egress_conn_id in
    record srv1 {
      sessions = set srv1.sessions i (record s { active = false });
      session_count = sub32 srv1.session_count 1;
    }

-- `rc_relay_session_destroy`
pub session_destroy : Server → ℕ → Server
unfolding first_where retire
session_destroy srv session_id = elim (first_where (is_active_as session_id) srv.sessions) [
  | none ↦ srv
  | some i ↦ elim (get_elem? srv.sessions i) [ none ↦ srv | some s ↦ retire i s srv ]
]

-- `bw_check`
pub bw_check : ℕ → Session → ℕ → Bool × Session
bw_check now sess pkt_len =
    let fresh = leb (bw_interval_sec * 1000) (sub64 now sess.bw_window_start_ms) in
    let start = if fresh then now else sess.bw_window_start_ms in
    let used = if fresh then 0 else sess.bw_bytes_this_sec in
    let s = record sess { bw_bytes_this_sec = used; bw_window_start_ms = start } in
    if ltb s.bw_limit_bps (add64 used pkt_len)
    then (false, record s { bytes_dropped = add64 s.bytes_dropped pkt_len })
    else (true, record s { bw_bytes_this_sec = add64 used pkt_len })
