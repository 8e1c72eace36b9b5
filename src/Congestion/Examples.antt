-- ===== src/Congestion/Examples.antt =====
-- Congestion control at small inputs.
use robov.Prelude.{◌≡◌, some, arith}
use robov.Congestion.{Cubic, fast_recovery, init, on_loss}
use robov.Congestion.Loss.{Reduced, on_loss_lem}

abbrev recovering : Cubic
recovering = record (init 0) { state = fast_recovery }

abbrev measured : Cubic
measured = record (init 0) { srtt = 100; rtt_var = 50 }

on_loss_lem_example : (c' : Cubic) × (on_loss (init 0) ≡ some c') × Reduced (init 0) c'
unfolding init
on_loss_lem_example = on_loss_lem (init 0) (omega arith)
