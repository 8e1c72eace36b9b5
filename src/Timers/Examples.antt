-- ===== src/Timers/Examples.antt =====
-- The timer wheel with a free timer, about to wrap its lowest level.
use robov.Prelude.{◌+◌, ◌≡◌, some, List, [], ◌∷◌, arith}
use robov.Timers.{Timer, Wheel, Event, set_slot, timer_add, ticks}
use robov.Timers.Slots.{In}
use robov.Timers.Fire.{timer_add-fires}

abbrev wheel : Wheel
wheel = record { slots = λ l s. []; wheel_ticks = λ l. 0; current_ms = 1000; timer_free = 2 }

abbrev timer : Timer
timer = record { id = 7; expiry_ms = 1030; interval_ms = 0 }

abbrev armed : Wheel
armed = record wheel { slots = set_slot wheel.slots 0 6 (timer ∷ []) }

timer_add-fires_example :
    (es : List Event) × (w' : Wheel) × (ticks 40 (timer_add 7 30 0 wheel).1 ≡ some (es, w'))
    × In (1000 + 30, 7) es
timer_add-fires_example =
    timer_add-fires 40 7 30 0 wheel (omega arith) (omega arith) (λ l. omega arith) (omega arith)
      (omega arith)
