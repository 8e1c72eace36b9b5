-- ===== src/P2p.antt =====
-- src/core/rc_p2p.c: hole punching, the candidates and the fallback to a relay. The STUN messages are
-- in P2p/Stun. What a system call gives is an argument.
pub mod Stun
pub mod Punch
mod Examples
use robov.Prelude.{
  ℕ, ◌+◌, ◌-◌, List, [], ◌∷◌, ◌++◌, Bool, true, false, ◌||◌, ◌&&◌, Option, none, some,
  if◌then◌else◌, ltb, leb, ◌==◌, length, take, replicate, add32, sub64, u32,
}
use robov.Proto.{
  Header, header_size, hdr_init, hdr_pack, hdr_unpack, pkt_type_code, ping, pong, relay_req,
  unpack_ok, unpack_bad, Unpacked, max_payload,
}
use robov.Ring
use robov.Ring.{Ring}
use Stun.{build_request}

abbrev pub max_candidates : ℕ
max_candidates = 8

abbrev pub punch_interval_ms : ℕ
punch_interval_ms = 500

abbrev pub punch_max_attempts : ℕ
punch_max_attempts = 10

-- `rc_addr_t`: an IPv4 address and port. `ss_len` 0 says that there is none.
pub record Addr : Type 0 where
  pub ip : ℕ
  pub port : ℕ
  pub ss_len : ℕ

abbrev pub no_addr : Addr
no_addr = record { ip = 0; port = 0; ss_len = 0 }

-- `sizeof(struct sockaddr_in)`
abbrev pub sockaddr_in_size : ℕ
sockaddr_in_size = 16

-- `rc_candidate_t`
pub record Candidate : Type 0 where
  pub addr : Addr
  pub priority : ℕ
  pub is_local : Bool
  pub is_reflexive : Bool
  pub is_relay : Bool

-- `rc_p2p_state_t`. A socket -1 is `none`; the list has `candidate_count` candidates.
pub record P2pState : Type 0 where
  pub candidates : List Candidate
  pub stun_server : Addr
  pub stun_fd : Option ℕ
  pub punch_fd : Option ℕ
  pub punch_attempts : ℕ
  pub last_punch_ms : ℕ
  pub punch_success : Bool
  pub peer_addr : Addr
  pub use_relay : Bool
  pub relay_session_id : ℕ

-- The result 0 or -1 of a call.
pub data Status : Type 0 where
  ok failed : Status

-- `gather_host_candidates`: the socket that `socket` gives, and the address that `bind` and
-- `getsockname` give it. A socket that cannot be bound is closed.
bound : ℕ → Option Addr → P2pState → P2pState
bound fd none s = s
bound fd (some here) s =
    let found : Candidate = record {
      addr = record here { ss_len = sockaddr_in_size };
      priority = 100;
      is_local = true;
      is_reflexive = false;
      is_relay = false;
    } in
    if ltb (length s.candidates) max_candidates
    then record s { candidates = s.candidates ++ found ∷ []; punch_fd = some fd }
    else record s { punch_fd = some fd }

pub gather_host_candidates : Option ℕ → Option Addr → P2pState → P2pState
unfolding bound
gather_host_candidates none here s = s
gather_host_candidates (some fd) here s = bound fd here s

-- `gather_srflx_candidates`: the socket, the transaction number that was drawn, and the bytes sent.
asked : Option ℕ → List ℕ → P2pState → Option (List ℕ) × P2pState
unfolding build_request
asked none txn s = (none, s)
asked (some fd) txn s = (build_request 28 txn, record s { stun_fd = some fd })

pub gather_srflx_candidates : Option ℕ → List ℕ → P2pState → Option (List ℕ) × P2pState
unfolding asked
gather_srflx_candidates sock txn s =
    if s.stun_server.ss_len == 0 then (none, s) else asked sock txn s

-- `rc_p2p_create`
pub create : Option ℕ → Option Addr → P2pState
unfolding gather_host_candidates
create sock here = gather_host_candidates sock here (record {
  candidates = [];
  stun_server = no_addr;
  stun_fd = none;
  punch_fd = none;
  punch_attempts = 0;
  last_punch_ms = 0;
  punch_success = false;
  peer_addr = no_addr;
  use_relay = false;
  relay_session_id = 0;
})

-- `rc_p2p_set_stun`: `parsed` is what `inet_pton` makes of the host.
stun_set : Option ℕ → List ℕ → Option ℕ → P2pState → Status × P2pState
unfolding gather_srflx_candidates
stun_set sock txn none s = (failed, s)
stun_set sock txn (some ip) s =
    let there = record (s.stun_server) { ip = ip } in
    (ok, (gather_srflx_candidates sock txn (record s { stun_server = there })).1)

pub set_stun : Option ℕ → List ℕ → Option ℕ → ℕ → P2pState → Status × P2pState
unfolding stun_set
set_stun sock txn parsed port s =
    let there = record (s.stun_server) { port = port; ss_len = sockaddr_in_size } in
    stun_set sock txn parsed (record s { stun_server = there })

-- The bytes of a probe.
pub punch_probe : List ℕ
punch_probe = hdr_pack (hdr_init (pkt_type_code ping) 0 0)

-- `send_punch_probe`: whether `sendto` succeeds; the bytes sent.
probe_on : Option ℕ → ℕ → Bool → P2pState → Option (List ℕ) × P2pState
unfolding punch_probe
probe_on none now sent s = (none, s)
probe_on (some fd) now sent s =
    if sent
    then (
      some punch_probe,
      record s { punch_attempts = add32 s.punch_attempts 1; last_punch_ms = now },
    )
    else (none, s)

pub send_punch_probe : ℕ → Bool → P2pState → Option (List ℕ) × P2pState
unfolding probe_on
send_punch_probe now sent s = probe_on s.punch_fd now sent s

-- A datagram, with its sender, that opens the way: a PING or a PONG with a header that is accepted.
answered : Unpacked → Header → Bool
answered unpack_bad h = false
answered unpack_ok h = h.kind == pkt_type_code ping || h.kind == pkt_type_code pong

pub opens : List ℕ → Bool
unfolding answered
opens bytes =
    if ltb (length bytes) header_size
    then false
    else (let (r, h) = hdr_unpack bytes in answered r h)

-- The end of `rc_p2p_tick`, on what `recvfrom` gives.
received : Option (List ℕ × Addr) → P2pState → Bool × P2pState
unfolding opens
received none s = (false, s)
received (some (bytes, from)) s =
    if opens (take (header_size + 64) bytes)
    then (true, record s { punch_success = true; peer_addr = from })
    else (false, s)

-- Nothing is received from the socket -1.
heard : Option ℕ → Option (List ℕ × Addr) → P2pState → Bool × P2pState
unfolding received
heard none datagram s = (false, s)
heard (some fd) datagram s = received datagram s

-- The last part of `rc_p2p_tick`: the probe is sent, and what has come is looked at.
pub punch : ℕ → Bool → Option (List ℕ × Addr) → P2pState → Bool × Option (List ℕ) × P2pState
unfolding send_punch_probe heard
punch now sent datagram s =
    let (probe, s1) = send_punch_probe now sent s in
    let (r, s2) = heard s1.punch_fd datagram s1 in (r, probe, s2)

-- `rc_p2p_tick` at the time `now`: what it returns, the probe that it sends, and the state.
pub tick : ℕ → Bool → Option (List ℕ × Addr) → P2pState → Bool × Option (List ℕ) × P2pState
unfolding punch
tick now sent datagram s =
    if s.punch_success || s.use_relay
    then (true, none, s)
    else (if leb punch_max_attempts s.punch_attempts
        then (false, none, s)
        else (if ltb (sub64 now s.last_punch_ms) punch_interval_ms
            then (false, none, s)
            else punch now sent datagram s))

-- What `rc_p2p_probe` returns, of what `recv` gives within the timeout and the time that has passed.
pub probe_result : Option (List ℕ) → ℕ → ℕ
unfolding answered
probe_result none elapsed = 0
probe_result (some bytes) elapsed =
    if ltb (length bytes) header_size
    then 0
    else (let (r, h) = hdr_unpack (take (header_size + max_payload) bytes) in
        if answered_pong r h then u32 elapsed else 0)
  where
    answered_pong : Unpacked → Header → Bool
    answered_pong unpack_bad h = false
    answered_pong unpack_ok h = h.kind == pkt_type_code pong

-- The fields of the connection that `rc_p2p_fallback_relay` works on.
pub record RelayedConn : Type 0 where
  pub conn_id : ℕ
  pub local_seq : ℕ
  pub send_buf : Ring

-- The RELAY_REQ packet.
pub relay_request : ℕ → ℕ → List ℕ
relay_request seq id = hdr_pack (record (hdr_init (pkt_type_code relay_req) seq id) { flags = 16 })

-- `rc_p2p_fallback_relay`
pub fallback_relay : RelayedConn → P2pState → Status × RelayedConn × P2pState
unfolding relay_request
fallback_relay c s =
    let (written, ring) = Ring.write c.send_buf (relay_request c.local_seq c.conn_id) in
    (
      if written == header_size then ok else failed,
      record c { local_seq = add32 c.local_seq 1; send_buf = ring },
      record s { use_relay = true },
    )
