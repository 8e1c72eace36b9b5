-- ===== src/Retransmit/Examples.antt =====
-- The retransmission queue with two packets in flight.
use robov.Prelude.{
  not, ◌||◌, ◌&&◌, leb, ltb, false, ℕ, suc, ◌≡◌, refl, ap, true, some, List, [], ◌∷◌, ◌++◌, map,
  replicate, length-replicate, All, arith, inl, inr,
}
use robov.Retransmit.{
  Entry, SackBlock, RetxState, blank, blank_block, ok, enqueue, process_ack, process_sack,
}
use robov.Retransmit.Slots.{slot, slots, count_if}
use robov.Retransmit.Queue.{queue, IsValid, enqueue_refines, drop_acked}
use robov.Retransmit.Ack.{
  holding, process_ack_refines, beyond, process_ack_cumulative, process_sack_refines,
}
use robov.Retransmit.Loss.{
  has, detect_loss, fast_phase, fast_scan, hole_scan, timeout_scan, timed_out, backed_off,
}
use robov.Retransmit.Loss.Found.{Awaits, detect_loss_complete, detect_loss-Awaits}

abbrev entry : ℕ → Entry
entry seq = record blank {
  seq = seq;
  sent_ts_ms = 1000;
  rto_ms = 200;
  pkt_data = some (1 ∷ 2 ∷ []);
  pkt_len = 2;
}

abbrev two_sent : RetxState
two_sent = record {
  entries = entry 5 ∷ entry 6 ∷ replicate 4094 blank;
  head = 0;
  tail = 2;
  count = 2;
  dup_ack_count = 0;
  dup_ack_seq = 0;
  sack_blocks = replicate 4 blank_block;
  sack_count = 0;
  fast_retransmits = 0;
  timeout_retransmits = 0;
}

-- Three duplicate acknowledgements of 4, and a block that begins at 9.
abbrev hole_seen : RetxState
hole_seen = record two_sent {
  dup_ack_count = 3;
  dup_ack_seq = 4;
  sack_blocks = record { left_edge = 9; right_edge = 12 } ∷ replicate 3 blank_block;
  sack_count = 1;
}

abbrev one_block : List SackBlock
one_block = record { left_edge = 6; right_edge = 7 } ∷ []

two_sent-IsValid : IsValid two_sent
two_sent-IsValid = record {
  slots_all = ap (λ n. suc (suc n)) (length-replicate 4094 blank);
  count_in = omega arith;
  head_in = omega arith;
  tail_at = refl;
}

hole_seen-IsValid : IsValid hole_seen
hole_seen-IsValid = record {
  slots_all = ap (λ n. suc (suc n)) (length-replicate 4094 blank);
  count_in = omega arith;
  head_in = omega arith;
  tail_at = refl;
}

enqueue_refines_example :
    let (r, s') = enqueue true 1100 two_sent 7 (8 ∷ 9 ∷ []) 2 200 in
    let last : Entry = record {
      seq = 7;
      sent_ts_ms = 1100;
      rto_ms = 200;
      payload_len = (slot blank two_sent.entries 2).payload_len;
      acked = false;
      sacked = false;
      pkt_data = some (8 ∷ 9 ∷ []);
      pkt_len = 2;
    } in
    (r ≡ ok) × (queue s' ≡ queue two_sent ++ last ∷ [])
enqueue_refines_example = enqueue_refines true 1100 two_sent 7 (8 ∷ 9 ∷ []) 2 200 two_sent-IsValid

process_ack_refines_example :
    let (acked, s') = process_ack two_sent 5 in
    IsValid s'
    × (queue s'
        ≡ drop_acked (
            map {A = Entry} {B = Entry}
              (λ e. record e { acked = e.acked || leb e.seq 5 })
              (queue two_sent)))
    × (acked ≡ count_if (λ e. not e.acked && leb e.seq 5) (queue two_sent))
process_ack_refines_example = process_ack_refines two_sent 5 two_sent-IsValid

process_ack_cumulative_example : queue (process_ack two_sent 5).1 ≡ beyond 5 (queue two_sent)
unfolding queue slots
process_ack_cumulative_example =
    process_ack_cumulative two_sent 5 two_sent-IsValid (omega arith, (omega arith, tt))
      (refl, (refl, tt))

process_sack_refines_example :
    let (sacked, s') = process_sack two_sent one_block 1 in
    IsValid s'
    × (queue s'
        ≡ map {A = Entry} {B = Entry}
            (λ e. record e {
              sacked = e.sacked || (not e.acked && ltb 0 (holding one_block e.seq));
            })
            (queue two_sent))
    × (sacked
        ≡ count_if
            (λ e. not (e.acked || e.sacked) && ltb 0 (holding one_block e.seq))
            (queue two_sent))
process_sack_refines_example = process_sack_refines two_sent one_block 1 two_sent-IsValid

detect_loss_complete_example : has (detect_loss two_sent 1500 16).0 6 ≡ true
unfolding queue slots detect_loss fast_phase fast_scan hole_scan timeout_scan timed_out backed_off
    has
detect_loss_complete_example =
    detect_loss_complete two_sent 1500 16 6 two_sent-IsValid (omega arith)
      (inr (inl (refl, omega arith, refl)))

detect_loss-Awaits_example : All (Awaits (queue two_sent)) (detect_loss two_sent 1500 16).0
detect_loss-Awaits_example = detect_loss-Awaits two_sent 1500 16 two_sent-IsValid
