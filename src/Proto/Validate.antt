-- ===== src/Proto/Validate.antt =====
-- `rc_pkt_validate`: which buffers it accepts, and what it answers to the others.
use robov.Prelude.{
  ℕ, ◌+◌, ◌^◌, ◌<◌, ◌≤◌, ◌≡◌, ◌≢◌, ◌↔◌, ◌⊎◌, refl, true, List, ◌++◌, arith, if◌then◌else◌, ◌==◌,
  length, u16,
}
use robov.Proto.{
  Header, PktType, pkt_type_code, hello, hello_ack, data_pkt, ack_pkt, nack, ping, pong, relay_req,
  relay_ack, auth_req, auth_ack, fin, magic, proto_version, max_payload, header_size, hdr_init,
  hdr_pack, hdr_fields, known_type, pkt_validate, valid, too_short, bad_header, bad_length,
  too_long, bad_type,
}
use robov.Proto.RoundTrip.{InRange, hdr_fields-pack, length-hdr_pack}

-- The packet type that a number stands for; any for a number that stands for none.
type_of : ℕ → PktType
type_of n =
    if n == 1
    then hello
    else if n == 2
    then hello_ack
    else if n == 3
    then data_pkt
    else if n == 4
    then ack_pkt
    else if n == 5
    then nack
    else if n == 6
    then ping
    else if n == 7
    then pong
    else if n == 8
    then relay_req
    else if n == 9
    then relay_ack
    else if n == 10
    then auth_req
    else if n == 11
    then auth_ack
    else fin

code-type_of : (n : ℕ) → known_type n ≡ true → pkt_type_code (type_of n) ≡ n
unfolding known_type type_of pkt_type_code
code-type_of n h = ground arith

pub known_type-code : (t : PktType) → known_type (pkt_type_code t) ≡ true
unfolding known_type pkt_type_code
known_type-code hello = refl
known_type-code _ = refl

-- What a receiver may rely on: a full header of this protocol, a payload of the announced length
-- within the limit, and one of the twelve packet types.
pub record IsPacket (buf : List ℕ) : Type 0 where
  pub magic_good : (hdr_fields buf).magic ≡ magic
  pub version_good : (hdr_fields buf).version ≡ proto_version
  pub length_good : length buf ≡ header_size + (hdr_fields buf).payload_len
  pub payload_fits : (hdr_fields buf).payload_len ≤ max_payload
  pub kind : PktType
  pub kind_good : pkt_type_code kind ≡ (hdr_fields buf).kind

valid-IsPacket : (buf : List ℕ) → pkt_validate buf ≡ valid → IsPacket buf
unfolding pkt_validate
valid-IsPacket buf h = record {
  magic_good = ground arith;
  version_good = ground arith;
  length_good = ground arith;
  payload_fits = ground arith;
  kind = type_of (hdr_fields buf).kind;
  kind_good = ground (arith, code-type_of (hdr_fields buf).kind);
}

IsPacket-valid : (buf : List ℕ) → IsPacket buf → pkt_validate buf ≡ valid
unfolding pkt_validate
IsPacket-valid buf p = ground (arith, known_type-code p.kind)

-- `rc_pkt_validate` accepts a buffer exactly when it is a packet: a header with the magic, the
-- version and a known type, and a payload of the length that it names and within the limit.
pub validate_iff : (buf : List ℕ) → (pkt_validate buf ≡ valid) ↔ IsPacket buf
validate_iff buf = (valid-IsPacket buf, IsPacket-valid buf)

-- The five refusals: exactly when each is given, in the order of the tests.
pub validate_refusals :
    (buf : List ℕ)
    → let h = hdr_fields buf in
      ((pkt_validate buf ≡ too_short) ↔ (length buf < header_size))
      × ((pkt_validate buf ≡ bad_header)
          ↔ (header_size ≤ length buf) × ((h.magic ≢ magic) ⊎ (h.version ≢ proto_version)))
      × ((pkt_validate buf ≡ bad_length)
          ↔ (header_size ≤ length buf)
            × (h.magic ≡ magic)
            × (h.version ≡ proto_version)
            × (length buf ≢ header_size + h.payload_len))
      × ((pkt_validate buf ≡ too_long)
          ↔ (h.magic ≡ magic)
            × (h.version ≡ proto_version)
            × (length buf ≡ header_size + h.payload_len)
            × (max_payload < h.payload_len))
      × ((pkt_validate buf ≡ bad_type)
          ↔ (h.magic ≡ magic)
            × (h.version ≡ proto_version)
            × (length buf ≡ header_size + h.payload_len)
            × (h.payload_len ≤ max_payload)
            × ((t : PktType) → pkt_type_code t ≢ h.kind))
unfolding pkt_validate
validate_refusals buf = (
  (λ e. ground arith, λ e. ground arith),
  (λ e. (ground arith, ground arith), λ e. ground arith),
  (λ e. (ground arith, ground arith, ground arith, ground arith), λ e. ground arith),
  (λ e. (ground arith, ground arith, ground arith, ground arith), λ e. ground arith),
  (
    λ e. (
      ground arith,
      ground arith,
      ground arith,
      ground arith,
      λ t k. ground (arith, known_type-code t),
    ),
    λ e. ground (arith, code-type_of (hdr_fields buf).kind, e.4 (type_of (hdr_fields buf).kind)),
  ),
)

-- A sender's packet, as every handler of the core builds it.
pub with_payload : ℕ → ℕ → ℕ → ℕ → List ℕ → Header
unfolding hdr_init
with_payload kind seq conn flags payload = record (hdr_init kind seq conn) {
  payload_len = u16 (length payload);
  flags = flags;
}

with_payload-InRange :
    (t : PktType) (seq conn flags : ℕ) (payload : List ℕ)
    → seq < 2 ^ 32
    → conn < 2 ^ 32
    → flags < 2 ^ 16
    → InRange (with_payload (pkt_type_code t) seq conn flags payload)
unfolding with_payload
with_payload-InRange t seq conn flags payload hs hc hf = omega arith

-- What a sender builds by `rc_hdr_init`, a payload length, flags and `rc_hdr_pack` in front of a
-- payload within the limit, where the sequence number, the connection and the flags fit their
-- widths, the receiver's `rc_pkt_validate` accepts.
pub validate-pack :
    (t : PktType) (seq conn flags : ℕ) (payload : List ℕ)
    → seq < 2 ^ 32
    → conn < 2 ^ 32
    → flags < 2 ^ 16
    → length payload ≤ max_payload
    → pkt_validate (hdr_pack (with_payload (pkt_type_code t) seq conn flags payload) ++ payload)
      ≡ valid
unfolding pkt_validate with_payload pkt_type_code known_type
validate-pack t seq conn flags payload hs hc hf hl =
    let h = with_payload (pkt_type_code t) seq conn flags payload in
    ground (
      arith,
      hdr_fields-pack h payload (with_payload-InRange t seq conn flags payload hs hc hf),
      length-hdr_pack h payload,
      known_type-code t,
    )
