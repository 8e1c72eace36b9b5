-- ===== src/Retransmit/Rto.antt =====
-- `rc_calc_rto`, and which packets `rc_retransmit_record_sent` queues.
use robov.Prelude.{ℕ, ◌+◌, ◌*◌, ◌^◌, ◌≤◌, ◌<◌, ◌≡◌, arith, max, min}
use robov.Retransmit.{calc_rto, min_rto_ms, max_rto_ms}

-- The timeout lies within its bounds, for all inputs, also where the sum wraps.
pub calc_rto_bounds :
    (srtt rttvar : ℕ) → (min_rto_ms ≤ calc_rto srtt rttvar) × (calc_rto srtt rttvar ≤ max_rto_ms)
unfolding calc_rto
calc_rto_bounds srtt rttvar = (ground arith, ground arith)

-- Where the sum fits 32 bits the timeout is `srtt + max(200, 4 * rttvar)`, clamped: the test
-- `rttvar > 50` computes that maximum.
pub calc_rto_lem :
    (srtt rttvar : ℕ)
    → srtt + max 200 (4 * rttvar) < 2 ^ 32
    → calc_rto srtt rttvar ≡ min max_rto_ms (max min_rto_ms (srtt + max 200 (4 * rttvar)))
unfolding calc_rto
calc_rto_lem srtt rttvar h = ground arith
