-- ===== src/Timers.antt =====
-- The timer wheel of src/core/rc_epoll.c and include/rc_epoll.h. The list of a slot is the list of its
-- timers, and a callback is an event of the time and the timer: here no callback touches the wheel.
pub mod Slots
pub mod Round
pub mod Fire
mod Examples
use robov.Prelude.{
  ℕ, zero, suc, ◌+◌, ◌-◌, ◌*◌, ◌/◌, ◌%◌, ◌^◌, Bool, true, false, ◌&&◌, Option, none, some, List, [],
  ◌∷◌, ◌++◌, if◌then◌else◌, ltb, leb, ◌==◌, add32, add64, sub64,
}

abbrev pub timer_slots : ℕ
timer_slots = 256

abbrev pub timer_levels : ℕ
timer_levels = 4

-- `struct rc_timer`, where `id` stands for the callback and its argument. A timer is active if it
-- stands in the wheel.
pub record Timer : Type 0 where
  pub id : ℕ
  pub expiry_ms : ℕ
  pub interval_ms : ℕ

-- The part of `struct rc_event_loop` that has to do with timers. `timer_free` counts the free timers.
pub record Wheel : Type 0 where
  pub slots : ℕ → ℕ → List Timer
  pub wheel_ticks : ℕ → ℕ
  pub current_ms : ℕ
  pub timer_free : ℕ

-- `timer_slot`: the level and the slot.
pub timer_slot : ℕ → ℕ → ℕ × ℕ
timer_slot current_ms expiry_ms =
    let delta = sub64 expiry_ms current_ms in
    if ltb delta timer_slots
    then (0, expiry_ms % timer_slots)
    else if ltb delta (timer_slots * timer_slots)
    then (1, expiry_ms / timer_slots % timer_slots)
    else if ltb delta (timer_slots * timer_slots * timer_slots)
    then (2, expiry_ms / (timer_slots * timer_slots) % timer_slots)
    else (3, expiry_ms / (timer_slots * timer_slots * timer_slots) % timer_slots)

abbrev pub set_slot : (ℕ → ℕ → List Timer) → ℕ → ℕ → List Timer → ℕ → ℕ → List Timer
set_slot f level slot ts l s = if (l == level) && (s == slot) then ts else f l s

-- `timer_insert`
pub timer_insert : Timer → Wheel → Wheel
unfolding timer_slot
timer_insert t w =
    let (level, slot) = timer_slot w.current_ms t.expiry_ms in
    record w { slots = set_slot w.slots level slot (t ∷ w.slots level slot) }

-- `rc_timer_add`, with a callback: whether a timer was free.
pub timer_add : ℕ → ℕ → ℕ → Wheel → Bool × Wheel
unfolding timer_insert
timer_add id delay_ms interval_ms w =
    let t : Timer = record {
      id = id;
      expiry_ms = add64 w.current_ms delay_ms;
      interval_ms = interval_ms;
    } in
    if w.timer_free == 0
    then (false, w)
    else (true, timer_insert t (record w { timer_free = w.timer_free - 1 }))

-- A callback: the time and the timer.
abbrev pub Event : Type 0
Event = ℕ × ℕ

-- What becomes of one timer of the current slot.
pub run_timer : Timer → Wheel → List Event × Wheel
unfolding timer_insert
run_timer t w =
    if leb t.expiry_ms w.current_ms
    then (
      (w.current_ms, t.id) ∷ [],
      if ltb 0 t.interval_ms
          then timer_insert (record t { expiry_ms = add64 w.current_ms t.interval_ms }) w
          else record w { timer_free = w.timer_free + 1 },
    )
    else ([], timer_insert t w)

-- The loop over the timers of the current slot.
pub run_slot : List Timer → Wheel → List Event × Wheel
unfolding run_timer
run_slot [] w = ([], w)
run_slot (t ∷ ts) w =
    let (es, w') = run_timer t w in let (fs, w'') = run_slot ts w' in (es ++ fs, w'')

-- The loop that moves the timers of a slot.
pub insert_all : List Timer → Wheel → Wheel
unfolding timer_insert
insert_all [] w = w
insert_all (t ∷ ts) w = insert_all ts (timer_insert t w)

abbrev pub set_tick : (ℕ → ℕ) → ℕ → ℕ → ℕ → ℕ
set_tick f level n l = if l == level then n else f l

-- One level of the cascade, where `parent` is its tick.
pub cascade_level : ℕ → ℕ → Wheel → Wheel
unfolding insert_all
cascade_level level parent w = insert_all (w.slots level parent) (record w {
  slots = set_slot w.slots level parent [];
  wheel_ticks = set_tick w.wheel_ticks level (add32 parent 1);
})

-- The cascade from a level on, `n` levels of it. A tick beyond the last slot is a fault.
pub cascade : ℕ → ℕ → Wheel → Option Wheel
unfolding cascade_level
cascade zero level w = some w
cascade (suc n) level w =
    let parent = w.wheel_ticks level in
    let w' = cascade_level level parent w in
    let rest = cascade n (suc level) w' in
    if leb timer_slots parent
    then none
    else if add32 parent 1 % timer_slots == 0
    then rest
    else some w'

abbrev pub with_events : List Event → Option Wheel → Option (List Event × Wheel)
with_events es none = none
with_events es (some w) = some (es, w)

-- One round of the outer loop of `process_timers`.
pub tick : Wheel → Option (List Event × Wheel)
unfolding run_slot cascade
tick w =
    let slot = w.current_ms % timer_slots in
    let (es, w1) = run_slot (w.slots 0 slot) (record w { slots = set_slot w.slots 0 slot [] }) in
    let w2 = record w1 { current_ms = add64 w1.current_ms 1 } in
    with_events es (if slot == 0 then cascade (timer_levels - 1) 1 w2 else some w2)

abbrev pub after : List Event → Option (List Event × Wheel) → Option (List Event × Wheel)
after es none = none
after es (some (fs, w)) = some (es ++ fs, w)

-- `n` rounds.
pub ticks : ℕ → Wheel → Option (List Event × Wheel)
unfolding tick
ticks zero w = some ([], w)
ticks (suc n) w = elim (tick w) [ none ↦ none | some (es, w') ↦ after es (ticks n w') ]

-- `process_timers`: one round to every millisecond up to `now`.
pub process_timers : ℕ → Wheel → Option (List Event × Wheel)
unfolding ticks
process_timers now w = ticks (now + 1 - w.current_ms) w
