-- ===== src/P2p/Stun.antt =====
-- The STUN messages of src/core/rc_p2p.c: building a binding request and parsing a binding response.
-- A read beyond the buffer and the end of the fuel are results of their own.
pub mod Safe
pub mod Attributes
pub mod Response
use robov.Prelude.{
  ℕ, zero, suc, ◌+◌, ◌*◌, ◌/◌, List, [], ◌∷◌, ◌++◌, Bool, true, false, ◌||◌, ◌&&◌, Option, none,
  some, if◌then◌else◌, ltb, leb, ◌==◌, length, take, get_or, bit_xor,
}
use robov.Proto.Bytes.{be_bytes, be_at}

abbrev pub stun_magic : ℕ
stun_magic = 0x2112A442

-- `stun_build_request`: the 20 bytes that it stores, unless the buffer is smaller than 28 bytes.
unfoldable pub build_request : ℕ → List ℕ → Option (List ℕ)
build_request buf_len txn_id =
    if ltb buf_len 28
    then none
    else some (be_bytes 2 0x0001 ++ (be_bytes 2 0 ++ (be_bytes 4 stun_magic ++ take 12 txn_id)))

-- What `stun_parse_response` returns: an address and a port, or -1.
pub data Parsed : Type 0 where
  mapped : ℕ → ℕ → Parsed
  invalid overread exhausted : Parsed

-- The bytes of the buffer up to the place `i` are read.
unfoldable pub reading : List ℕ → ℕ → Parsed → Parsed
reading buf i r = if leb i (length buf) then r else overread

unfoldable pub is_address : ℕ → Bool
is_address attr_type = attr_type == 0x0020 || attr_type == 0x0001

-- `port ^= STUN_MAGIC >> 16` and `ip ^= STUN_MAGIC`, for the type XOR-MAPPED-ADDRESS only.
unfoldable pub unmask : ℕ → ℕ → ℕ → Parsed
unmask attr_type ip port =
    if attr_type == 0x0020
    then mapped (bit_xor ip stun_magic) (bit_xor port 0x2112)
    else mapped ip port

-- `(attr_len + 3) & ~3`
unfoldable pub padded : ℕ → ℕ
padded attr_len = (attr_len + 3) / 4 * 4

-- The body of the loop at the attribute at `attr`; `next` is what the later rounds return.
unfoldable pub attribute : List ℕ → ℕ → ℕ → Parsed → Parsed
unfolding is_address
attribute buf end attr next =
    let attr_type = be_at 2 buf attr in
    let attr_len = be_at 2 buf (attr + 2) in
    if ltb end (attr + 4 + attr_len)
    then invalid
    else (if is_address attr_type && leb 8 attr_len
        then reading buf (attr + 6) (
            if get_or buf (attr + 5) 0 == 0x01
            then reading buf (attr + 12)
                (unmask attr_type (be_at 4 buf (attr + 8)) (be_at 2 buf (attr + 6)))
            else next)
        else next)

-- The loop over the attributes, from `attr` to `end`.
unfoldable pub scan : ℕ → List ℕ → ℕ → ℕ → Parsed
scan zero buf end attr = exhausted
scan (suc fuel) buf end attr =
    let next = scan fuel buf end (attr + 4 + padded (be_at 2 buf (attr + 2))) in
    if leb (attr + 4) end then reading buf (attr + 4) (attribute buf end attr next) else invalid

-- `stun_parse_response`. Its header reads go up to the eighth byte.
unfoldable pub parse_response : List ℕ → Parsed
unfolding scan reading
parse_response buf =
    if ltb (length buf) 20
    then invalid
    else reading buf 8 (
        let msg_len = be_at 2 buf 2 in
        if be_at 2 buf 0 == 0x0101
        then (if be_at 4 buf 4 == stun_magic
            then (if ltb (length buf) (20 + msg_len)
                then invalid
                else scan (suc msg_len) buf (20 + msg_len) 20)
            else invalid)
        else invalid)
