-- ===== src/Proto.antt =====
-- src/core/rc_proto.c and include/rc_proto.h: the 32-byte packet header, its packing, unpacking
-- and validation. A buffer is the list of its bytes.
pub mod Bytes
pub mod RoundTrip
pub mod Validate
pub mod Crc
mod Examples
use robov.Prelude.{
  ℕ, ◌+◌, ◌-◌, ◌%◌, ◌^◌, List, [], ◌++◌, Bool, ◌||◌, if◌then◌else◌, ltb, ◌==◌, length, u16,
}
use Bytes.{be_bytes, be_at}

abbrev pub magic : ℕ
magic = 0x524F424F

abbrev pub proto_version : ℕ
proto_version = 1

abbrev pub max_payload : ℕ
max_payload = 1400

abbrev pub header_size : ℕ
header_size = 32

-- `rc_pkt_type_t`, by its numbers on the wire.
pub data PktType : Type 0 where
  hello hello_ack data_pkt ack_pkt nack ping pong relay_req relay_ack auth_req auth_ack fin :
      PktType

unfoldable pub pkt_type_code : PktType → ℕ
pkt_type_code hello = 0x0001
pkt_type_code hello_ack = 0x0002
pkt_type_code data_pkt = 0x0003
pkt_type_code ack_pkt = 0x0004
pkt_type_code nack = 0x0005
pkt_type_code ping = 0x0006
pkt_type_code pong = 0x0007
pkt_type_code relay_req = 0x0008
pkt_type_code relay_ack = 0x0009
pkt_type_code auth_req = 0x000A
pkt_type_code auth_ack = 0x000B
pkt_type_code fin = 0x00FF

-- `rc_pkt_hdr_t`. The field `type` of the source is `kind`.
pub record Header : Type 0 where
  pub magic : ℕ
  pub version : ℕ
  pub kind : ℕ
  pub seq : ℕ
  pub ack : ℕ
  pub timestamp : ℕ
  pub payload_len : ℕ
  pub flags : ℕ
  pub conn_id : ℕ

-- `rc_hdr_init`
unfoldable pub hdr_init : ℕ → ℕ → ℕ → Header
hdr_init kind seq conn = record {
  magic = magic;
  version = proto_version;
  kind = u16 kind;
  seq = seq;
  ack = 0;
  timestamp = 0;
  payload_len = 0;
  flags = 0;
  conn_id = conn;
}

-- `rc_hdr_pack`: the 32 bytes that it writes at `dst`.
unfoldable pub hdr_pack : Header → List ℕ
hdr_pack h =
    be_bytes 4 h.magic
    ++ (be_bytes 2 h.version
        ++ (be_bytes 2 h.kind
            ++ (be_bytes 4 h.seq
                ++ (be_bytes 4 h.ack
                    ++ (be_bytes 8 h.timestamp
                        ++ (be_bytes 2 h.payload_len
                            ++ (be_bytes 2 h.flags ++ be_bytes 4 h.conn_id)))))))

-- The fields that `rc_hdr_unpack` stores before it tests them.
unfoldable pub hdr_fields : List ℕ → Header
hdr_fields src = record {
  magic = be_at 4 src 0;
  version = be_at 2 src 4;
  kind = be_at 2 src 6;
  seq = be_at 4 src 8;
  ack = be_at 4 src 12;
  timestamp = be_at 8 src 16;
  payload_len = be_at 2 src 24;
  flags = be_at 2 src 26;
  conn_id = be_at 4 src 28;
}

-- What a call of `rc_hdr_unpack` returns: 0 or -1.
pub data Unpacked : Type 0 where
  unpack_ok unpack_bad : Unpacked

unfoldable pub hdr_check : Header → Unpacked
hdr_check h =
    if h.magic == magic
    then (if h.version == proto_version then unpack_ok else unpack_bad)
    else unpack_bad

-- `rc_hdr_unpack`: the header is stored also when the result is -1.
unfoldable pub hdr_unpack : List ℕ → Unpacked × Header
unfolding hdr_check
hdr_unpack src = let h = hdr_fields src in (hdr_check h, h)

-- The cases of the `switch` of `rc_pkt_validate`.
pub known_type : ℕ → Bool
known_type t =
    t == 0x0001
    || (t == 0x0002
        || (t == 0x0003
            || (t == 0x0004
                || (t == 0x0005
                    || (t == 0x0006
                        || (t == 0x0007
                            || (t == 0x0008
                                || (t == 0x0009
                                    || (t == 0x000A || (t == 0x000B || t == 0x00FF))))))))))

-- The results of `rc_pkt_validate`: 0 and -1 to -5.
pub data Verdict : Type 0 where
  valid too_short bad_header bad_length too_long bad_type : Verdict

-- `rc_pkt_validate` on a buffer of `length buf` bytes.
pub pkt_validate : List ℕ → Verdict
unfolding hdr_unpack
pkt_validate buf =
    let len = length buf in
    if ltb len header_size
    then too_short
    else let (r, h) = hdr_unpack buf in
      elim r [
        | unpack_bad ↦ bad_header
        | unpack_ok ↦
            if h.payload_len == len - header_size
            then (if ltb max_payload h.payload_len
                then too_long
                else (if known_type h.kind then valid else bad_type))
            else bad_length
      ]
