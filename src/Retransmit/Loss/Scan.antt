-- ===== src/Retransmit/Loss/Scan.antt =====
-- The scans of `rc_retx_detect_loss` on the queue that the array stands for.
use robov.Prelude.{
  ℕ, zero, suc, ◌%◌, ◌≤◌, ◌≡◌, refl, ap, ◌∙◌, ◌&&◌, Option, none, some, List, [], ◌∷◌, ◌++◌, arith,
  if◌then◌else◌, ltb, leb, length, set, take, add32,
}
use robov.Retransmit.{Entry, SackBlock, RetxState, blank, dup_ack_thresh}
use robov.Retransmit.Slots.{queue_max, slot, slots, slots-set}
use robov.Retransmit.Queue.{queue, IsValid}
use robov.Retransmit.Loss.{
  pending, fast_scan, fast_phase, in_hole, hole_scan, timed_out, backed_off, timeout_scan,
  detect_loss,
}

-- The first pending entry beyond a sequence number.
unfoldable pub first_beyond : List Entry → ℕ → Option ℕ
first_beyond [] dup_seq = none
first_beyond (e ∷ es) dup_seq =
    let rest = first_beyond es dup_seq in
    if pending e && ltb dup_seq e.seq then some e.seq else rest

unfoldable pub holes : List Entry → List SackBlock → ℕ → ℕ → List ℕ → List ℕ
holes [] blocks now max_retrans out = out
holes (e ∷ es) blocks now max_retrans out =
    let rest =
      holes es blocks now max_retrans (if in_hole blocks now e then out ++ e.seq ∷ [] else out) in
    if ltb (length out) max_retrans then rest else out

unfoldable pub timeouts : List Entry → ℕ → ℕ → List ℕ → List ℕ
timeouts [] now max_retrans out = out
timeouts (e ∷ es) now max_retrans out =
    let rest =
      timeouts es now max_retrans (if timed_out out now e then out ++ e.seq ∷ [] else out) in
    if ltb (length out) max_retrans then rest else out

fast_scan-slots :
    (n idx : ℕ) (es : List Entry) (dup_seq : ℕ)
    → fast_scan n idx es dup_seq ≡ first_beyond (slots blank es idx n) dup_seq
unfolding fast_scan first_beyond slots
fast_scan-slots zero idx es d = refl
fast_scan-slots (suc n) idx es d = ground (arith, fast_scan-slots n (add32 idx 1) es d)

hole_scan-slots :
    (n idx : ℕ) (es : List Entry) (blocks : List SackBlock) (now m : ℕ) (out : List ℕ)
    → hole_scan n idx es blocks now m out ≡ holes (slots blank es idx n) blocks now m out
unfolding hole_scan holes slots
hole_scan-slots zero idx es blocks now m out = refl
hole_scan-slots (suc n) idx es blocks now m out =
    ap (λ r. if ltb (length out) m then r else out)
      (hole_scan-slots n (add32 idx 1) es blocks now m _)

timeout_scan-slots :
    (n idx : ℕ) (now m : ℕ) (es : List Entry) (out : List ℕ) (hits : ℕ)
    → n ≤ queue_max
    → (timeout_scan n idx now m (es, out, hits)).1 ≡ timeouts (slots blank es idx n) now m out
unfolding timeout_scan timeouts slots
timeout_scan-slots zero idx now m es out hits h = refl
timeout_scan-slots (suc n) idx now m es out hits h =
    let e = slot blank es idx in
    let es' = set es (idx % queue_max) (backed_off now e) in
    let same : slots blank es' (add32 idx 1) n ≡ slots blank es (add32 idx 1) n =
      slots-set blank es (idx % queue_max) (add32 idx 1) n (backed_off now e)
        (λ k b p. absurd (omega (arith, p))) in
    ground (
      arith,
      timeout_scan-slots n (add32 idx 1) now m es' (out ++ e.seq ∷ []) (add32 hits 1),
      timeout_scan-slots n (add32 idx 1) now m es out hits,
      same,
    )

-- The fast retransmission of `rc_retx_detect_loss`, on the queue.
unfoldable pub fast_found : RetxState → ℕ → List ℕ
fast_found s m =
    if leb dup_ack_thresh s.dup_ack_count && ltb 0 m
    then elim (first_beyond (queue s) s.dup_ack_seq) [ none ↦ [] | some seq ↦ seq ∷ [] ]
    else []

fast_phase-found : (s : RetxState) (m : ℕ) → (fast_phase s m).0 ≡ fast_found s m
unfolding fast_phase fast_found queue
fast_phase-found s m = ground (arith, fast_scan-slots s.count s.head s.entries s.dup_ack_seq)

-- The fast phase changes counters alone.
record SameQueue (s t : RetxState) : Type 0 where
  same_entries : t.entries ≡ s.entries
  same_head : t.head ≡ s.head
  same_count : t.count ≡ s.count
  same_blocks : t.sack_blocks ≡ s.sack_blocks
  same_sack_count : t.sack_count ≡ s.sack_count

fast_phase-SameQueue : (s : RetxState) (m : ℕ) → SameQueue s (fast_phase s m).1
unfolding fast_phase
fast_phase-SameQueue s m = record {
  same_entries = ground arith;
  same_head = ground arith;
  same_count = ground arith;
  same_blocks = ground arith;
  same_sack_count = ground arith;
}

-- The numbers that `rc_retx_detect_loss` stores, on the queue.
unfoldable pub found : RetxState → ℕ → ℕ → List ℕ
unfolding fast_found
found s now m = timeouts (queue s) now m (
    if ltb 0 s.sack_count
    then holes (queue s) (take s.sack_count s.sack_blocks) now m (fast_found s m)
    else fast_found s m)

pub detect_loss-found :
    (s : RetxState) (now m : ℕ) → IsValid s → (detect_loss s now m).0 ≡ found s now m
unfolding detect_loss found queue
detect_loss-found s now m v =
    let t = (fast_phase s m).1 in
    let k = fast_phase-SameQueue s m in
    let blocks = take t.sack_count t.sack_blocks in
    let out =
      if ltb 0 t.sack_count
      then hole_scan t.count t.head t.entries blocks now m (fast_phase s m).0
      else (fast_phase s m).0 in
    timeout_scan-slots t.count t.head now m t.entries out t.timeout_retransmits
      (rw k.same_count v.count_in)
    ∙ rw (
      k.same_entries,
      k.same_head,
      k.same_count,
      k.same_blocks,
      k.same_sack_count,
      fast_phase-found s m,
      hole_scan-slots,
    )
