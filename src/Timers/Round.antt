-- ===== src/Timers/Round.antt =====
-- One round of `process_timers` of src/core/rc_epoll.c: what stays in the lowest level, and what is called
-- back.
use robov.Prelude.{
  ℕ, ◌+◌, ◌%◌, ◌^◌, ◌≤◌, ◌<◌, ◌≡◌, ◌≢◌, ap, ◌∙◌, inl, inr, false, some, List, [], arith,
  if◌then◌else◌, ◌==◌, add64, Bool-cases,
}
use robov.Timers.{Timer, Wheel, Event, timer_slots, set_slot, run_slot, cascade, with_events, tick}
use robov.Timers.Slots.{In, run_slot-Keeps, run_slot-fires, cascade-Cascaded}

-- What a round leaves, and what it calls back.
pub record Ticked (w : Wheel) (es : List Event) (w' : Wheel) : Type 0 where
  pub later : w'.current_ms ≡ w.current_ms + 1
  pub ticks_near : (l : ℕ) → w'.wheel_ticks l ≤ w.wheel_ticks l + 1
  pub stays :
      (t : Timer) (s : ℕ) → s ≢ w.current_ms % 256 → In t (w.slots 0 s) → In t (w'.slots 0 s)
  pub fires :
      (t : Timer)
      → In t (w.slots 0 (w.current_ms % 256))
      → t.expiry_ms ≤ w.current_ms
      → In (w.current_ms, t.id) es

pub tick-Ticked :
    (w : Wheel)
    → w.current_ms < 2 ^ 63
    → ((l : ℕ) → w.wheel_ticks l < 256)
    → (es : List Event) × (w' : Wheel) × (tick w ≡ some (es, w')) × Ticked w es w'
unfolding tick
tick-Ticked w low h =
    let slot = w.current_ms % timer_slots in
    let w0 = record w { slots = set_slot w.slots 0 slot [] } in
    let es = (run_slot (w.slots 0 slot) w0).0 in
    let w1 = (run_slot (w.slots 0 slot) w0).1 in
    let w2 = record w1 { current_ms = add64 w1.current_ms 1 } in
    let k = run_slot-Keeps (w.slots 0 slot) w0 in
    let half : Ticked w es w2 = record {
      later = omega (arith, k.same_time, low);
      ticks_near = λ l. omega (arith, ap (λ f. f l) k.same_ticks);
      stays = λ t s n i.
          k.stays t s (let other : (s == slot) ≡ false = ground (arith, n) in rw other i);
      fires = λ t i e. run_slot-fires (w.slots 0 slot) w0 t i e;
    } in
    elim (Bool-cases (slot == 0)) [
      | inl wraps ↦
          let (w3, e, c) =
            cascade-Cascaded 3 1 w2 (omega arith)
              (λ l j. omega (arith, h l, ap (λ f. f l) k.same_ticks)) in
          (
            es,
            w3,
            ap (λ b. with_events es (if b then cascade 3 1 w2 else some w2)) wraps
                ∙ ap (with_events es) e,
            record {
              later = c.same_time ∙ half.later;
              ticks_near = λ l. omega (arith, c.ticks_near l, ap (λ f. f l) k.same_ticks);
              stays = λ t s n i. c.stays t s (half.stays t s n i);
              fires = half.fires;
            },
          )
      | inr not_yet ↦
          (es, w2, ap (λ b. with_events es (if b then cascade 3 1 w2 else some w2)) not_yet, half)
    ]
