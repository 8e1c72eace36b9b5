-- ===== src/Relay/Forward.antt =====
-- `rc_relay_forward` of src/core/rc_relay.c, the stream statistics, the purge and the totals.
pub mod Wire
pub mod Copy
pub mod Effect
pub mod Accounts
pub mod Created
use robov.Prelude.{
  ℕ, zero, suc, ◌+◌, ◌*◌, ◌%◌, Bool, true, false, not, ◌&&◌, Option, none, some, List, [], ◌∷◌,
  ◌++◌, if◌then◌else◌, ltb, leb, length, get_elem?, get_or, set, drop, u32, add32, add64, sub64,
}
use robov.Proto.{
  Header, header_size, max_payload, hdr_pack, hdr_unpack, Unpacked, unpack_ok, unpack_bad,
}
use robov.Proto.Bytes.{be_at}
use robov.Relay.{
  Stream, Session, Route, Server, max_streams, blank_stream, route_lookup, first_where,
  is_active_as, retire, bw_check,
}

-- The byte order of the machine the relay runs on.
pub data Endian : Type 0 where
  little big : Endian

-- A number of `k` bytes, the lowest first.
pub le_at : ℕ → List ℕ → ℕ → ℕ
le_at zero src off = 0
le_at (suc k) src off = get_or src off 0 + 256 * le_at k src (suc off)

-- What a field of a struct laid over the bytes holds.
pub host_at : Endian → ℕ → List ℕ → ℕ → ℕ
unfolding le_at be_at
host_at little k src off = le_at k src off
host_at big k src off = be_at k src off

-- `(rc_pkt_hdr_t *)fwd_buf`
pub overlay : Endian → List ℕ → Header
unfolding host_at
overlay e src = record {
  magic = host_at e 4 src 0;
  version = host_at e 2 src 4;
  kind = host_at e 2 src 6;
  seq = host_at e 4 src 8;
  ack = host_at e 4 src 12;
  timestamp = host_at e 8 src 16;
  payload_len = host_at e 2 src 24;
  flags = host_at e 2 src 26;
  conn_id = host_at e 4 src 28;
}

-- The buffer that is sent: the copy of the packet, with `conn_id` written through the struct and the
-- header packed again over itself.
pub readdress : Endian → List ℕ → ℕ → List ℕ
unfolding overlay
readdress e pkt conn_id =
    hdr_pack (record (overlay e pkt) { conn_id = conn_id }) ++ drop header_size pkt

-- One `sendto`.
pub record Sent : Type 0 where
  pub fd : ℕ
  pub dst : Option ℕ
  pub bytes : List ℕ

-- How `rc_relay_forward` ends: 0, -1, -2, or with a packet that is larger than `fwd_buf`.
pub data Forwarded : Type 0 where
  relayed dropped unroutable overflow : Forwarded

pub count_stream : ℕ → ℕ → Session → Session
count_stream flags pkt_len sess =
    let stream_id = flags % 256 in
    if ltb stream_id max_streams
    then (let s = get_or sess.streams stream_id blank_stream in
        record sess {
          streams = set sess.streams stream_id (record {
            stream_id = if s.active then s.stream_id else stream_id;
            bytes_forwarded = add64 s.bytes_forwarded pkt_len;
            pkts_forwarded = add64 s.pkts_forwarded 1;
            bytes_dropped = s.bytes_dropped;
            current_bps = s.current_bps;
            active = true;
          });
          stream_count = if s.active then sess.stream_count else add32 sess.stream_count 1;
        })
    else sess

-- The session after a packet is sent.
pub count_session : ℕ → ℕ → ℕ → Session → Session
unfolding count_stream
count_session now flags pkt_len sess = count_stream flags pkt_len (record sess {
  bytes_forwarded = add64 sess.bytes_forwarded pkt_len;
  pkts_forwarded = add64 sess.pkts_forwarded 1;
  last_activity_ms = now;
})

abbrev pub store_session : ℕ → Session → Server → Server
store_session i sess srv = record srv { sessions = set srv.sessions i sess }

-- The part of `rc_relay_forward` from the bandwidth check on. `sendto` takes the packet or fails. The two
-- readings of the clock give the same time.
pub forward_on :
    Endian
    → Bool
    → ℕ
    → Server
    → List ℕ
    → Header
    → Route
    → Session
    → Forwarded × Option Sent × Server
unfolding readdress count_session
forward_on e sendto now srv pkt hdr route sess =
    let (within, s) = bw_check now sess (u32 (length pkt)) in
    let to = if route.is_ingress then s.egress_addr else s.ingress_addr in
    let conn_id = if route.is_ingress then s.egress_conn_id else s.ingress_conn_id in
    let sent : Sent = record { fd = s.relay_fd; dst = to; bytes = readdress e pkt conn_id } in
    let srv1 = store_session route.session s srv in
    let srv2 = store_session route.session (count_session now hdr.flags (length pkt) s) srv in
    if not within
    then (dropped, none, srv1)
    else if ltb (header_size + max_payload) (length pkt)
    then (overflow, none, srv1)
    else if not sendto
    then (dropped, none, srv1)
    else (
      relayed,
      some sent,
      record srv2 { total_forwarded = add64 srv.total_forwarded (length pkt) },
    )

-- `rc_relay_forward` once it has the session of the route.
pub forward_session :
    Endian
    → Bool
    → ℕ
    → Server
    → List ℕ
    → Header
    → Route
    → Option Session
    → Forwarded × Option Sent × Server
unfolding forward_on
forward_session e sendto now srv pkt hdr route none = (unroutable, none, srv)
forward_session e sendto now srv pkt hdr route (some sess) =
    if sess.active then forward_on e sendto now srv pkt hdr route sess else (unroutable, none, srv)

-- `rc_relay_forward` once it has looked up the route.
pub forward_route :
    Endian → Bool → ℕ → Server → List ℕ → Header → Option Route → Forwarded × Option Sent × Server
unfolding forward_session
forward_route e sendto now srv pkt hdr none = (unroutable, none, srv)
forward_route e sendto now srv pkt hdr (some route) =
    forward_session e sendto now srv pkt hdr route (get_elem? srv.sessions route.session)

-- `rc_relay_forward` once it has unpacked the header.
pub forward_header :
    Endian → Bool → ℕ → Server → List ℕ → Header → Unpacked → Forwarded × Option Sent × Server
unfolding forward_route
forward_header e sendto now srv pkt hdr unpack_bad = (dropped, none, srv)
forward_header e sendto now srv pkt hdr unpack_ok =
    forward_route e sendto now srv pkt hdr (route_lookup srv hdr.conn_id)

-- `rc_relay_forward`
pub forward : Endian → Bool → ℕ → Server → List ℕ → Forwarded × Option Sent × Server
unfolding forward_header
forward e sendto now srv pkt =
    let (r, hdr) = hdr_unpack pkt in
    if ltb (length pkt) header_size
    then (dropped, none, srv)
    else forward_header e sendto now srv pkt hdr r

-- `rc_relay_stream_stats`: the bytes and the packets, or -1.
pub stream_stats : Server → ℕ → ℕ → Option (ℕ × ℕ)
stream_stats srv session_id stream_id =
    if leb max_streams stream_id
    then none
    else elim (first_where (is_active_as session_id) srv.sessions) [
      | none ↦ none
      | some i ↦ elim (get_elem? srv.sessions i) [
        | none ↦ none
        | some s ↦
            let t = get_or s.streams stream_id blank_stream in
            some (t.bytes_forwarded, t.pkts_forwarded)
      ]
    ]

-- The test of `rc_relay_purge_idle`.
abbrev pub is_idle : ℕ → ℕ → Session → Bool
is_idle now timeout_ms s = s.active && ltb timeout_ms (sub64 now s.last_activity_ms)

-- `n` rounds of its loop, from position `i` on.
unfoldable pub purge_from : ℕ → ℕ → ℕ → ℕ → Server → ℕ × Server
purge_from zero i now timeout_ms srv = (0, srv)
purge_from (suc n) i now timeout_ms srv = elim (get_elem? srv.sessions i) [
  | none ↦ purge_from n (suc i) now timeout_ms srv
  | some s ↦ elim (is_idle now timeout_ms s) [
    | false ↦ purge_from n (suc i) now timeout_ms srv
    | true ↦ let (k, srv') = purge_from n (suc i) now timeout_ms (retire i s srv) in (suc k, srv')
  ]
]

-- `rc_relay_purge_idle`
unfoldable pub purge_idle : ℕ → Server → ℕ → ℕ × Server
unfolding purge_from
purge_idle now srv timeout_ms = purge_from srv.max_sessions 0 now timeout_ms srv

-- `rc_relay_stats`
pub stats : Server → ℕ × ℕ × ℕ
stats srv = (srv.session_count, srv.total_forwarded, srv.total_dropped)
