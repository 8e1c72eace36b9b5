-- ===== src/Retransmit.antt =====
-- src/core/rc_retransmit.c: the retransmission queue of a connection. The time comes as an argument
-- where the code reads the clock, and `alloc` says whether `malloc` succeeds.
pub mod Slots
pub mod Loss
pub mod Queue
pub mod Ack
pub mod Rto
mod Examples
use robov.Prelude.{
  ℕ, zero, suc, ◌+◌, ◌*◌, ◌/◌, ◌%◌, ◌^◌, Bool, true, false, not, ◌&&◌, ◌||◌, Option, none, some,
  List, [], ◌∷◌, ◌++◌, if◌then◌else◌, ltb, leb, ◌==◌, length, set, take, drop, replicate, bit_and,
  u32, add32, sub32, mul32,
}
use robov.Proto.{header_size, hdr_unpack}
use Slots.{queue_max, slot, sweep}

abbrev pub min_rto_ms : ℕ
min_rto_ms = 200

abbrev pub max_rto_ms : ℕ
max_rto_ms = 60000

abbrev pub dup_ack_thresh : ℕ
dup_ack_thresh = 3

abbrev pub max_sack_blocks : ℕ
max_sack_blocks = 4

abbrev pub flag_reliable : ℕ
flag_reliable = 16

-- `rc_retx_entry_t`. A NULL `pkt_data` is `none`.
pub record Entry : Type 0 where
  pub seq : ℕ
  pub sent_ts_ms : ℕ
  pub rto_ms : ℕ
  pub payload_len : ℕ
  pub acked : Bool
  pub sacked : Bool
  pub pkt_data : Option (List ℕ)
  pub pkt_len : ℕ

-- `rc_sack_block_t`
pub record SackBlock : Type 0 where
  pub left_edge : ℕ
  pub right_edge : ℕ

-- `rc_retx_state_t`
pub record RetxState : Type 0 where
  pub entries : List Entry
  pub head : ℕ
  pub tail : ℕ
  pub count : ℕ
  pub dup_ack_count : ℕ
  pub dup_ack_seq : ℕ
  pub sack_blocks : List SackBlock
  pub sack_count : ℕ
  pub fast_retransmits : ℕ
  pub timeout_retransmits : ℕ

-- An entry and a block as `calloc` leaves them.
abbrev pub blank : Entry
blank = record {
  seq = 0;
  sent_ts_ms = 0;
  rto_ms = 0;
  payload_len = 0;
  acked = false;
  sacked = false;
  pkt_data = none;
  pkt_len = 0;
}

abbrev pub blank_block : SackBlock
blank_block = record { left_edge = 0; right_edge = 0 }

-- The result 0 or -1 of a call.
pub data Status : Type 0 where
  ok failed : Status

-- `rc_calc_rto`
pub calc_rto : ℕ → ℕ → ℕ
calc_rto srtt_ms rttvar_ms =
    let rto = add32 srtt_ms (if ltb 50 rttvar_ms then mul32 4 rttvar_ms else 200) in
    let raised = if ltb rto min_rto_ms then min_rto_ms else rto in
    if ltb max_rto_ms raised then max_rto_ms else raised

-- `rc_retx_create`, where the allocation succeeds.
pub create : RetxState
create = record {
  entries = replicate queue_max blank;
  head = 0;
  tail = 0;
  count = 0;
  dup_ack_count = 0;
  dup_ack_seq = 0;
  sack_blocks = replicate max_sack_blocks blank_block;
  sack_count = 0;
  fast_retransmits = 0;
  timeout_retransmits = 0;
}

-- The entry that `rc_retx_enqueue` fills in. A failed `malloc` leaves it with no data.
pub filled : Bool → ℕ → ℕ → List ℕ → ℕ → ℕ → Entry → Entry
filled alloc now seq pkt_data pkt_len rto_ms e = record e {
  seq = seq;
  sent_ts_ms = u32 now;
  rto_ms = rto_ms;
  acked = false;
  sacked = false;
  pkt_len = pkt_len;
  pkt_data = if alloc then some (take pkt_len pkt_data) else none;
}

-- `rc_retx_enqueue`
pub enqueue : Bool → ℕ → RetxState → ℕ → List ℕ → ℕ → ℕ → Status × RetxState
enqueue alloc now s seq pkt_data pkt_len rto_ms =
    if leb queue_max s.count
    then (failed, s)
    else let e = filled alloc now seq pkt_data pkt_len rto_ms (slot blank s.entries s.tail) in
      let es = set s.entries (s.tail % queue_max) e in
      if alloc
      then (ok, record s { entries = es; tail = add32 s.tail 1; count = add32 s.count 1 })
      else (failed, record s { entries = es })

-- The body of the first loop of `rc_retx_process_ack`.
pub newly_acked : ℕ → Entry → Bool
newly_acked ack_seq e = not e.acked && leb e.seq ack_seq

pub mark_acked : ℕ → Entry → Entry
unfolding newly_acked
mark_acked ack_seq e = if newly_acked ack_seq e then record e { acked = true } else e

-- The oldest entry leaves the queue, and its bytes are freed.
pub release : RetxState → RetxState
release s = record s {
  entries =
      set s.entries (s.head % queue_max) (record (slot blank s.entries s.head) { pkt_data = none });
  head = add32 s.head 1;
  count = sub32 s.count 1;
}

-- The second loop: acknowledged entries leave at the head. `n` is the rounds left.
pub drain : ℕ → RetxState → RetxState
drain zero s = s
drain (suc n) s =
    let rest = drain n (release s) in if (slot blank s.entries s.head).acked then rest else s

-- The end of `rc_retx_process_ack`: counting duplicate acknowledgements.
pub track_dup : ℕ → ℕ → RetxState → RetxState
track_dup acked ack_seq s =
    if acked == 0 && ltb 0 s.count
    then (if ack_seq == s.dup_ack_seq
        then record s { dup_ack_count = add32 s.dup_ack_count 1 }
        else record s { dup_ack_seq = ack_seq; dup_ack_count = 1 })
    else record s { dup_ack_count = 0 }

-- `rc_retx_process_ack`: the number of entries newly acknowledged, and the state.
pub process_ack : RetxState → ℕ → ℕ × RetxState
unfolding mark_acked newly_acked
process_ack s ack_seq =
    let (es, acked) =
      sweep blank (mark_acked ack_seq) (newly_acked ack_seq) s.count s.head s.entries 0 in
    let drained = drain s.count (record s { entries = es }) in
    (acked, track_dup acked ack_seq drained)

-- Whether a sequence number falls within one of the blocks.
pub in_blocks : List SackBlock → ℕ → Bool
in_blocks [] seq = false
in_blocks (b ∷ blocks) seq = (leb b.left_edge seq && ltb seq b.right_edge) || in_blocks blocks seq

pub newly_sacked : List SackBlock → Entry → Bool
newly_sacked blocks e = not (e.acked || e.sacked) && in_blocks blocks e.seq

pub mark_sacked : List SackBlock → Entry → Entry
unfolding newly_sacked
mark_sacked blocks e = if newly_sacked blocks e then record e { sacked = true } else e

-- `rc_retx_process_sack`: the number of entries newly marked, and the state.
pub process_sack : RetxState → List SackBlock → ℕ → ℕ × RetxState
unfolding mark_sacked newly_sacked
process_sack s blocks0 count0 =
    let count = if ltb max_sack_blocks count0 then max_sack_blocks else count0 in
    let blocks = take count blocks0 in
    let (es, sacked) =
      sweep blank (mark_sacked blocks) (newly_sacked blocks) s.count s.head s.entries 0 in
    (
      sacked,
      record s {
        entries = es;
        sack_blocks = blocks ++ drop count s.sack_blocks;
        sack_count = count;
      },
    )

-- `rc_retransmit_record_sent`, on a connection and a state that exist; `rto` is `conn->cubic.rto`.
pub record_sent : Bool → ℕ → ℕ → RetxState → ℕ → List ℕ → ℕ → Status × RetxState
record_sent alloc now rto s seq pkt_data pkt_len =
    if leb header_size pkt_len && bit_and (hdr_unpack pkt_data).1.flags flag_reliable == 0
    then (ok, s)
    else enqueue alloc now s seq pkt_data pkt_len rto
