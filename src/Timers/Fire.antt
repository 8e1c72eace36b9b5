-- ===== src/Timers/Fire.antt =====
-- Rounds of `process_timers` of src/core/rc_epoll.c: when a timer is called back.
use robov.Prelude.{
  ℕ, zero, suc, ◌+◌, ◌-◌, ◌%◌, ◌^◌, ◌≤◌, ◌<◌, ◌≡◌, refl, sym, ap, ◌∙◌, inl, inr, true, false, none,
  some, List, [], ◌++◌, arith, if◌then◌else◌, ltb, leb, ◌==◌, add64, sub64,
}
use mathlib.Core.Path.{subst}
use robov.Timers.{
  Timer, Wheel, Event, timer_slots, set_slot, timer_insert, run_slot, cascade, with_events, tick,
  after, ticks, timer_add, timer_slot,
}
use robov.Timers.Slots.{In, In-left, In-right, run_slot-Keeps, lt_or_ge}
use robov.Timers.Round.{tick-Ticked}

ticks_end :
    (n : ℕ) (w : Wheel)
    → w.current_ms + n < 2 ^ 62
    → ((l : ℕ) → w.wheel_ticks l + n < 256)
    → (es : List Event) × (w' : Wheel) × (ticks n w ≡ some (es, w'))
unfolding ticks
ticks_end zero w low h = ([], w, refl)
ticks_end (suc n) w low h =
    let (es, w1, e, d) = tick-Ticked w (omega (arith, low)) (λ l. omega (arith, h l)) in
    let (fs, w2, f) =
      ticks_end n w1 (omega (arith, low, d.later)) (λ l. omega (arith, h l, d.ticks_near l)) in
    (
      es ++ fs,
      w2,
      ap (λ o. elim o [ none ↦ none | some (gs, v) ↦ after gs (ticks n v) ]) e ∙ ap (after es) f,
    )

-- A timer that stands in the lowest level, due within the next 256 milliseconds, is called back at its time by
-- any number of rounds that go past that time; with ticks that many rounds below the number of slots, the rounds
-- meet no fault. The clock is below 2^62, and no callback touches the wheel.
pub ticks-fire :
    (n : ℕ) (w : Wheel) (t : Timer)
    → w.current_ms + n < 2 ^ 62
    → ((l : ℕ) → w.wheel_ticks l + n < 256)
    → In t (w.slots 0 (t.expiry_ms % 256))
    → w.current_ms ≤ t.expiry_ms
    → t.expiry_ms < w.current_ms + 256
    → t.expiry_ms < w.current_ms + n
    → (es : List Event) × (w' : Wheel) × (ticks n w ≡ some (es, w')) × In (t.expiry_ms, t.id) es
unfolding ticks
ticks-fire zero w t low h i a b c = absurd (omega (arith, a, c))
ticks-fire (suc n) w t low h i a b c =
    let (es, w1, e, d) = tick-Ticked w (omega (arith, low)) (λ l. omega (arith, h l)) in
    let low' : w1.current_ms + n < 2 ^ 62 = omega (arith, low, d.later) in
    let h' : (l : ℕ) → w1.wheel_ticks l + n < 256 = λ l. omega (arith, h l, d.ticks_near l) in
    let step : ticks (suc n) w ≡ after es (ticks n w1) =
      ap (λ o. elim o [ none ↦ none | some (gs, v) ↦ after gs (ticks n v) ]) e in
    elim (lt_or_ge w.current_ms t.expiry_ms) [
      | inl wait ↦
          let (fs, w2, f, m) =
            ticks-fire n w1 t low' h'
              (d.stays t (t.expiry_ms % 256) (λ q. absurd (omega (arith, q, wait, b))) i)
              (omega (arith, d.later, wait)) (omega (arith, d.later, b))
              (omega (arith, d.later, c)) in
          (es ++ fs, w2, step ∙ ap (after es) f, In-right _ es fs m)
      | inr due ↦
          let (fs, w2, f) = ticks_end n w1 low' h' in
          let now : w.current_ms ≡ t.expiry_ms = omega (arith, a, due) in
          let fired = d.fires t (subst (λ m. In t (w.slots 0 (m % 256))) (sym now) i) due in
          (
            es ++ fs,
            w2,
            step ∙ ap (after es) f,
            In-left _ es fs (subst (λ m. In (m, t.id) es) now fired),
          )
    ]

insert-In :
    (t : Timer) (w : Wheel) {delay : ℕ}
    → w.current_ms < 2 ^ 62
    → delay < 256
    → t.expiry_ms ≡ w.current_ms + delay
    → In t ((timer_insert t w).slots 0 (t.expiry_ms % 256))
unfolding timer_insert timer_slot
insert-In t w {delay} low short due =
    let low_level : ltb (sub64 t.expiry_ms w.current_ms) timer_slots ≡ true =
      ground (arith, low, short, due) in
    let same : (t.expiry_ms % 256 == t.expiry_ms % 256) ≡ true = ground arith in
    rw (low_level, same) (inl refl)

added :
    (id delay interval : ℕ) (w : Wheel)
    → 0 < w.timer_free
    → (timer_add id delay interval w).1
      ≡ timer_insert
          (record { id = id; expiry_ms = add64 w.current_ms delay; interval_ms = interval })
          (record w { timer_free = w.timer_free - 1 })
unfolding timer_add
added id delay interval w free =
    let some_free : (w.timer_free == 0) ≡ false = ground (arith, free) in rw some_free refl

-- A timer that `rc_timer_add` arms for less than 256 milliseconds is called back exactly when they are over, by any number
-- of rounds that go past that time. A timer is free, the clock is below 2^61, the ticks are that many rounds below the
-- number of slots, and no callback touches the wheel.
pub timer_add-fires :
    (n id delay interval : ℕ) (w : Wheel)
    → 0 < w.timer_free
    → w.current_ms + n < 2 ^ 61
    → ((l : ℕ) → w.wheel_ticks l + n < 256)
    → delay < 256
    → delay < n
    → (es : List Event) × (w' : Wheel) × (ticks n (timer_add id delay interval w).1 ≡ some (es, w'))
      × In (w.current_ms + delay, id) es
unfolding timer_insert
timer_add-fires n id delay interval w free low h short within =
    let t : Timer = record {
      id = id;
      expiry_ms = add64 w.current_ms delay;
      interval_ms = interval;
    } in
    let w0 = record w { timer_free = w.timer_free - 1 } in
    let due : add64 w.current_ms delay ≡ w.current_ms + delay = omega (arith, low, short) in
    let (es, w', e, m) =
      ticks-fire n (timer_insert t w0) t (omega (arith, low)) h
        (insert-In t w0 (omega (arith, low)) short due) (omega (arith, due))
        (omega (arith, due, short)) (omega (arith, due, within)) in
    (es, w', ap (ticks n) (added id delay interval w free) ∙ e, subst (λ x. In (x, id) es) due m)

cascade_faults :
    (n level : ℕ) (w : Wheel) → 256 ≤ w.wheel_ticks level → cascade (suc n) level w ≡ none
unfolding cascade
cascade_faults n level w h =
    let beyond : leb timer_slots (w.wheel_ticks level) ≡ true = ground (arith, h) in rw beyond refl

-- When the ticks of level 1 have reached 256, the round at the next multiple of 256 milliseconds takes a slot beyond
-- the last, whatever the wheel holds.
pub tick_faults : (w : Wheel) → w.current_ms % 256 ≡ 0 → 256 ≤ w.wheel_ticks 1 → tick w ≡ none
unfolding tick
tick_faults w z h =
    let slot = w.current_ms % timer_slots in
    let w0 = record w { slots = set_slot w.slots 0 slot [] } in
    let es = (run_slot (w.slots 0 slot) w0).0 in
    let w1 = (run_slot (w.slots 0 slot) w0).1 in
    let w2 = record w1 { current_ms = add64 w1.current_ms 1 } in
    let k = run_slot-Keeps (w.slots 0 slot) w0 in
    let wraps : (slot == 0) ≡ true = ground (arith, z) in
    ap (λ b. with_events es (if b then cascade 3 1 w2 else some w2)) wraps
    ∙ ap (with_events es) (cascade_faults 2 1 w2 (omega (arith, h, ap (λ f. f 1) k.same_ticks)))
