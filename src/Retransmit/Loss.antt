-- ===== src/Retransmit/Loss.antt =====
-- `rc_retx_detect_loss` of src/core/rc_retransmit.c: its three scans of the queue, in order. The
-- array `retrans` is the list of the numbers stored so far; a negative `max_retrans` acts as 0.
pub mod Scan
pub mod Found
pub mod Repeats
use robov.Prelude.{
  ℕ, zero, suc, ◌+◌, ◌*◌, ◌/◌, ◌^◌, Bool, true, false, not, ◌&&◌, ◌||◌, Option, none, some, List,
  [], ◌∷◌, ◌++◌, if◌then◌else◌, ltb, leb, ◌==◌, length, set, take, ◌%◌, u32, add32, sub32, mul32,
}
use robov.Retransmit.{Entry, SackBlock, RetxState, blank, dup_ack_thresh, max_rto_ms}
use robov.Retransmit.Slots.{queue_max, slot}

abbrev pub pending : Entry → Bool
pending e = not e.acked && not e.sacked

-- The first scan stops at the first entry to retransmit fast.
unfoldable pub fast_scan : ℕ → ℕ → List Entry → ℕ → Option ℕ
fast_scan zero idx es dup_seq = none
fast_scan (suc n) idx es dup_seq =
    let e = slot blank es idx in
    let rest = fast_scan n (add32 idx 1) es dup_seq in
    if pending e && ltb dup_seq e.seq then some e.seq else rest

unfoldable pub fast_phase : RetxState → ℕ → List ℕ × RetxState
fast_phase s max_retrans =
    if leb dup_ack_thresh s.dup_ack_count
    then (if ltb 0 max_retrans
        then elim (fast_scan s.count s.head s.entries s.dup_ack_seq) [
          | none ↦ ([], record s { dup_ack_count = 0 })
          | some seq ↦ (
            seq ∷ [],
            record s { dup_ack_count = 0; fast_retransmits = add32 s.fast_retransmits 1 },
          )
        ]
        else ([], record s { dup_ack_count = 0 }))
    else ([], s)

-- Whether a block begins beyond a sequence number.
unfoldable pub sack_beyond : List SackBlock → ℕ → Bool
sack_beyond [] seq = false
sack_beyond (b ∷ blocks) seq = ltb seq b.left_edge || sack_beyond blocks seq

abbrev pub age_ms : ℕ → Entry → ℕ
age_ms now e = sub32 (u32 now) e.sent_ts_ms

-- An entry of a hole, at least half its timeout old.
unfoldable pub in_hole : List SackBlock → ℕ → Entry → Bool
in_hole blocks now e = pending e && (sack_beyond blocks e.seq && leb (e.rto_ms / 2) (age_ms now e))

unfoldable pub hole_scan : ℕ → ℕ → List Entry → List SackBlock → ℕ → ℕ → List ℕ → List ℕ
unfolding in_hole
hole_scan zero idx es blocks now max_retrans out = out
hole_scan (suc n) idx es blocks now max_retrans out =
    let e = slot blank es idx in
    let rest =
      hole_scan n (add32 idx 1) es blocks now max_retrans
        (if in_hole blocks now e then out ++ e.seq ∷ [] else out) in
    if ltb (length out) max_retrans then rest else out

unfoldable pub has : List ℕ → ℕ → Bool
has [] seq = false
has (x ∷ xs) seq = x == seq || has xs seq

unfoldable pub timed_out : List ℕ → ℕ → Entry → Bool
unfolding has
timed_out out now e = pending e && (leb e.rto_ms (age_ms now e) && not (has out e.seq))

-- A timeout doubles the entry's timeout up to the maximum, and starts it again.
unfoldable pub backed_off : ℕ → Entry → Entry
backed_off now e = record e {
  rto_ms = if ltb e.rto_ms (max_rto_ms / 2) then mul32 e.rto_ms 2 else max_rto_ms;
  sent_ts_ms = u32 now;
}

unfoldable pub timeout_scan : ℕ → ℕ → ℕ → ℕ → List Entry × List ℕ × ℕ → List Entry × List ℕ × ℕ
unfolding timed_out backed_off
timeout_scan zero idx now max_retrans (es, out, hits) = (es, out, hits)
timeout_scan (suc n) idx now max_retrans (es, out, hits) =
    let e = slot blank es idx in
    let rest = timeout_scan n (add32 idx 1) now max_retrans (
      if timed_out out now e
      then (set es (idx % queue_max) (backed_off now e), out ++ e.seq ∷ [], add32 hits 1)
      else (es, out, hits)) in
    if ltb (length out) max_retrans then rest else (es, out, hits)

-- `rc_retx_detect_loss`: the sequence numbers to retransmit, as many as it returns, and the state.
unfoldable pub detect_loss : RetxState → ℕ → ℕ → List ℕ × RetxState
unfolding fast_phase hole_scan timeout_scan
detect_loss s0 now max_retrans =
    let (out0, s) = fast_phase s0 max_retrans in
    let holes =
      hole_scan s.count s.head s.entries (take s.sack_count s.sack_blocks) now max_retrans out0 in
    let out1 = if ltb 0 s.sack_count then holes else out0 in
    let (es, out2, hits) =
      timeout_scan s.count s.head now max_retrans (s.entries, out1, s.timeout_retransmits) in
    (out2, record s { entries = es; timeout_retransmits = hits })
