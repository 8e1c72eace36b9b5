-- ===== src/Packet.antt =====
-- include/proto.h: the packets of the services. A header of 16 bytes in the host's order, a payload,
-- and a CRC-32 over both.
pub mod Sum
pub mod RoundTrip
pub mod Messages
mod Examples
use robov.Prelude.{
  ℕ, zero, suc, ◌+◌, ◌*◌, ◌/◌, ◌%◌, ◌^◌, Bool, true, false, Option, none, some, List, [], ◌∷◌, ◌++◌,
  if◌then◌else◌, ltb, ◌==◌, length, take, drop, get_or, replicate, bit_and, bit_xor, u8, u16,
}

abbrev pub proto_magic : ℕ
proto_magic = 0x5243

abbrev pub packet_version : ℕ
packet_version = 1

abbrev pub packet_header : ℕ
packet_header = 16

abbrev pub packet_payload : ℕ
packet_payload = 65536

-- The numbers of `rc_msg_type_t` that the encoders use.
abbrev pub msg_handshake_req : ℕ
msg_handshake_req = 0x01

abbrev pub msg_handshake_res : ℕ
msg_handshake_res = 0x02

abbrev pub msg_handshake_ack : ℕ
msg_handshake_ack = 0x03

abbrev pub msg_ping : ℕ
msg_ping = 0x20

abbrev pub msg_pong : ℕ
msg_pong = 0x21

abbrev pub msg_disconnect : ℕ
msg_disconnect = 0x30

-- `RC_FLAG_RELIABLE` of this header.
abbrev pub packet_reliable : ℕ
packet_reliable = 4

-- The bytes of a number in the host's order, the lowest first, and the way back.
unfoldable pub low_bytes : ℕ → ℕ → List ℕ
low_bytes zero x = []
low_bytes (suc k) x = x % 256 ∷ low_bytes k (x / 256)

unfoldable pub low_at : ℕ → List ℕ → ℕ → ℕ
low_at zero src off = 0
low_at (suc k) src off = get_or src off 0 + 256 * low_at k src (suc off)

-- The static variables of `rc_crc32`.
pub record SumState : Type 0 where
  pub table : List ℕ
  pub initialized : Bool

-- One round of the inner loop that fills the table, and `n` of them.
pub sum_bit : ℕ → ℕ
sum_bit c = if bit_and c 1 == 0 then c / 2 else bit_xor 0xEDB88320 (c / 2)

pub sum_bits : ℕ → ℕ → ℕ
unfolding sum_bit
sum_bits zero c = c
sum_bits (suc n) c = sum_bits n (sum_bit c)

-- The entries of `n` rounds of the outer loop, from `i` on.
pub sum_table : ℕ → ℕ → List ℕ
unfolding sum_bits
sum_table i zero = []
sum_table i (suc n) = sum_bits 8 i ∷ sum_table (suc i) n

pub sum_init : SumState → SumState
unfolding sum_table
sum_init s = if s.initialized then s else record { table = sum_table 0 256; initialized = true }

pub sum_update : List ℕ → ℕ → ℕ → ℕ
sum_update table crc byte = bit_xor (get_or table (bit_and (bit_xor crc byte) 0xFF) 0) (crc / 2 ^ 8)

pub sum_loop : List ℕ → ℕ → List ℕ → ℕ
unfolding sum_update
sum_loop table crc [] = crc
sum_loop table crc (byte ∷ bytes) = sum_loop table (sum_update table crc byte) bytes

-- `rc_crc32`: the checksum, and the static variables after the call.
pub sum32 : SumState → List ℕ → ℕ × SumState
unfolding sum_init sum_loop
sum32 s bytes = let s1 = sum_init s in (bit_xor (sum_loop s1.table 0xFFFFFFFF bytes) 0xFFFFFFFF, s1)

-- `memcpy(out + pos, bytes, length bytes)`, where that lies inside the buffer.
unfoldable pub put : List ℕ → ℕ → List ℕ → List ℕ
put out pos bytes = take pos out ++ (bytes ++ drop (pos + length bytes) out)

-- The fields of a packet that are the caller's.
pub record Fields : Type 0 where
  pub kind : ℕ
  pub flags : ℕ
  pub session_id : ℕ
  pub seq_num : ℕ

-- `rc_packet_t` as it is stored: its last field, `reserved2`, lies behind the 16 bytes that count as
-- the header, where the payload or the checksum is put next.
unfoldable pub packet_bytes : Fields → ℕ → List ℕ
unfolding low_bytes
packet_bytes f payload_len =
    proto_magic / 256
      ∷ proto_magic % 256
      ∷ packet_version
      ∷ u8 f.kind
      ∷ u8 f.flags
      ∷ 0
      ∷ low_bytes 4 f.session_id
    ++ (low_bytes 4 f.seq_num ++ (low_bytes 2 payload_len ++ low_bytes 2 0))

-- `if (payload_len > 0 && payload) memcpy(...)`; no payload is `none`.
unfoldable pub put_payload : List ℕ → Option (List ℕ) → ℕ → List ℕ
unfolding put
put_payload out none payload_len = out
put_payload out (some payload) payload_len = put out packet_header (take payload_len payload)

-- What `rc_packet_encode` returns: the length of the packet, or `RC_ERR_INVAL`.
pub data Encoded : Type 0 where
  encoded : ℕ → Encoded
  no_room : Encoded

-- `rc_packet_encode` into the buffer `out` of `length out` bytes.
unfoldable pub packet_encode :
    SumState → Fields → Option (List ℕ) → ℕ → List ℕ → Encoded × List ℕ × SumState
unfolding put put_payload packet_bytes sum32 low_bytes
packet_encode s f payload payload_len out =
    let total = packet_header + payload_len + 4 in
    if ltb (length out) total
    then (no_room, out, s)
    else (if ltb packet_payload payload_len
        then (no_room, out, s)
        else (let out1 = put out 0 (packet_bytes f payload_len) in
            let out2 = put_payload out1 payload payload_len in
            let (crc, s1) = sum32 s (take (packet_header + payload_len) out2) in
            (encoded total, put out2 (packet_header + payload_len) (low_bytes 4 crc), s1)))

-- What `rc_packet_decode` stores and returns, or `RC_ERR_PROTO`.
pub data Decoded : Type 0 where
  decoded : (f : Fields) (payload : Option (List ℕ)) (total : ℕ) → Decoded
  bad_packet : Decoded

pub decoded_fields : List ℕ → Fields
unfolding low_at
decoded_fields bytes = record {
  kind = get_or bytes 3 0;
  flags = get_or bytes 4 0;
  session_id = low_at 4 bytes 6;
  seq_num = low_at 4 bytes 10;
}

-- The payload of `plen` bytes; an empty one is NULL.
pub payload_at : List ℕ → ℕ → Option (List ℕ)
payload_at bytes zero = none
payload_at bytes (suc n) = some (take (suc n) (drop packet_header bytes))

-- The end of `rc_packet_decode`, on the checksum that was computed.
pub checked : List ℕ → ℕ → ℕ → Decoded
unfolding low_at decoded_fields payload_at
checked bytes plen actual_crc =
    if low_at 4 bytes (packet_header + plen) == actual_crc
    then decoded (decoded_fields bytes) (payload_at bytes plen) (packet_header + plen + 4)
    else bad_packet

-- `rc_packet_decode`
pub packet_decode : SumState → List ℕ → Decoded × SumState
unfolding low_at sum32 checked
packet_decode s bytes =
    let plen = low_at 2 bytes 14 in
    if ltb (length bytes) packet_header
    then (bad_packet, s)
    else (if get_or bytes 0 0 * 256 + get_or bytes 1 0 == proto_magic
        then (if get_or bytes 2 0 == packet_version
            then (if ltb (length bytes) (packet_header + plen + 4)
                then (bad_packet, s)
                else (if ltb packet_payload plen
                    then (bad_packet, s)
                    else (let (crc, s1) = sum32 s (take (packet_header + plen) bytes) in
                        (checked bytes plen crc, s1))))
            else (bad_packet, s))
        else (bad_packet, s))
