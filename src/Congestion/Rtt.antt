-- ===== src/Congestion/Rtt.antt =====
-- `rc_cubic_update_rtt` of src/core/rc_congestion.c: the retransmission timeout.
use robov.Prelude.{ℕ, ◌+◌, ◌-◌, ◌*◌, ◌^◌, ◌≤◌, ◌<◌, ◌≡◌, ◌≢◌, min, max, arith}
use robov.Congestion.{Cubic, init, distance, clamp_rto, update_rtt}

-- After a measurement the timeout is between 200 and 60000 milliseconds, and the smallest round trip seen is
-- no larger than it was or than the new one.
pub update_rtt_bounds :
    (c : Cubic) (rtt : ℕ)
    → rtt ≢ 0
    → let c' = update_rtt c rtt in
      (200 ≤ c'.rto) × (c'.rto ≤ 60000) × (c'.min_rtt ≡ min c.min_rtt rtt)
unfolding update_rtt clamp_rto
update_rtt_bounds c rtt h = (ground (arith, h), ground (arith, h), ground (arith, h))

-- After the first measurement, of more than 200 and less than 486 milliseconds, the timeout is shorter than
-- the round trip that was measured.
pub first_rto_short :
    (mss rtt : ℕ)
    → 200 < rtt
    → rtt < 486
    → (update_rtt (init mss) rtt).rto < (update_rtt (init mss) rtt).srtt
unfolding update_rtt clamp_rto init
first_rto_short mss rtt a b = ground (arith, a, b)

-- A measurement after the first, where it and the smoothed round trip are not 0 and below 2^28,
-- leaves the smoothed round trip between the two, and four times the variance no greater than
-- three times the old one and their distance.
pub srtt_between :
    (c : Cubic) (rtt : ℕ)
    → c.srtt ≢ 0
    → c.srtt < 2 ^ 28
    → rtt ≢ 0
    → rtt < 2 ^ 28
    → let c' = update_rtt c rtt in
      (min c.srtt rtt ≤ c'.srtt)
      × (c'.srtt ≤ max c.srtt rtt)
      × ((4 * c'.rtt_var) ≤ (3 * c.rtt_var) + (max c.srtt rtt - min c.srtt rtt))
unfolding update_rtt distance
srtt_between c rtt a b d e =
    (ground (arith, a, b, d, e), ground (arith, a, b, d, e), ground (arith, a, b, d, e))
