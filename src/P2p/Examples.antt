-- ===== src/P2p/Examples.antt =====
-- The peer-to-peer functions at small inputs.
use robov.Prelude.{
  ℕ, ◌+◌, ◌^◌, ◌≤◌, ◌≡◌, refl, List, [], ◌∷◌, ◌++◌, true, none, some, replicate, arith,
}
use robov.Proto.Bytes.{all_bytes, all_bytes-IsBytes, be_bytes}
use robov.Ring
use robov.Ring.{Ring}
use robov.Ring.Inv.{IsValid}
use robov.P2p.{Addr, P2pState, create, punch_probe, punch_max_attempts, RelayedConn}
use robov.P2p.Punch.{Round, ticks, ticks-count, IsDue}
use robov.P2p.Stun.{mapped, is_address, parse_response}
use robov.P2p.Stun.Safe.{IsAnswer, parse_response-IsAnswer}
use robov.P2p.Stun.Attributes.{Attr, IsOther, attr_bytes, attrs_bytes, address_bytes, response}
use robov.P2p.Stun.Response.{parse-response}

abbrev home : Addr
home = record { ip = 0x0A000001; port = 4000; ss_len = 16 }

abbrev away : Addr
away = record { ip = 0xC0A80001; port = 5000; ss_len = 16 }

abbrev peer : P2pState
peer = create (some 7) (some home)

abbrev rounds : List Round
rounds =
    record { now = 1000; sent = true; datagram = none }
    ∷ record { now = 1200; sent = true; datagram = none }
    ∷ record { now = 1600; sent = true; datagram = some (punch_probe, away) }
    ∷ []

-- A software attribute of five bytes.
abbrev software : Attr
software = record {
  kind = 0x8022;
  value = 114 ∷ 111 ∷ 98 ∷ 111 ∷ 118 ∷ [];
  padding = 0 ∷ 0 ∷ 0 ∷ [];
}

software-IsOther : IsOther software
unfolding is_address
software-IsOther = record {
  kind_in = omega arith;
  not_address = refl;
  value_in = omega arith;
  pads = refl;
  pads_in = omega arith;
}

-- A response whose attribute claims more bytes than there are.
abbrev broken : List ℕ
broken = 1 ∷ 1 ∷ 0 ∷ 4 ∷ 33 ∷ 18 ∷ 164 ∷ 66 ∷ replicate 12 9 ++ 0 ∷ 32 ∷ 0 ∷ 8 ∷ []

parse-response_example :
    parse_response (
      response
        (replicate 12 9)
        (attrs_bytes (software ∷ []) (address_bytes 0xC0A80001 5000 (1 ∷ []))))
    ≡ mapped 0xC0A80001 5000
unfolding attrs_bytes attr_bytes address_bytes be_bytes
parse-response_example =
    parse-response 0xC0A80001 5000 (omega arith) (omega arith) (1 ∷ []) (replicate 12 9)
      (software ∷ []) refl (software-IsOther, tt) (omega arith)

parse_response-IsAnswer_example : IsAnswer (parse_response broken)
unfolding all_bytes
parse_response-IsAnswer_example = parse_response-IsAnswer broken (all_bytes-IsBytes broken refl)

ticks-count_example :
    ((ticks peer rounds).1.punch_attempts ≡ peer.punch_attempts + (ticks peer rounds).0)
    × ((ticks peer rounds).1.punch_attempts ≤ punch_max_attempts)
unfolding create
ticks-count_example = ticks-count peer rounds (omega arith)

peer-IsDue : IsDue 1000 peer
unfolding create
peer-IsDue = record {
  open_yet = refl;
  attempts_left = omega arith;
  interval_over = omega arith;
  socket = 7;
  has_socket = refl;
}

-- A ring with room for 16 bytes.
abbrev short_ring : Ring
short_ring = record { buf = replicate 16 0; size = 16; mask = 15; head = 0; tail = 0 }

short_ring-IsValid : IsValid short_ring
unfolding Ring.available
short_ring-IsValid = record {
  bits = 4;
  cofactor = 2 ^ 28;
  size_pow = refl;
  divides = refl;
  size_pos = omega arith;
  size_in = omega arith;
  mask_good = refl;
  storage = refl;
  head_in = omega arith;
  tail_in = omega arith;
  fits = omega arith;
}

abbrev relayed : RelayedConn
relayed = record { conn_id = 77; local_seq = 5; send_buf = short_ring }
