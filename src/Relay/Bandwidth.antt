-- ===== src/Relay/Bandwidth.antt =====
-- `bw_check` of src/core/rc_relay.c: what a window lets through.
use robov.Prelude.{ℕ, ◌+◌, ◌^◌, ◌≤◌, ◌<◌, ◌≡◌, ◌↔◌, true, List, [], ◌∷◌, arith, if◌then◌else◌, ltb}
use robov.Relay.{Session, bw_check}

-- The session's window holds no more than its limit, and the limit leaves room for a packet.
pub record Fits (s : Session) : Type 0 where
  pub used_in : s.bw_bytes_this_sec ≤ s.bw_limit_bps
  pub limit_in : s.bw_limit_bps < 2 ^ 63

pub bw_check-Fits :
    (now : ℕ) (s : Session) (pkt_len : ℕ)
    → pkt_len < 2 ^ 32
    → Fits s
    → Fits (bw_check now s pkt_len).1
unfolding bw_check
bw_check-Fits now s pkt_len h f = ground (arith, f.used_in, f.limit_in)

-- The packets of a run, by time and length, and the bytes that pass.
pub checks : List (ℕ × ℕ) → Session → ℕ × Session
checks [] s = (0, s)
checks ((now, len) ∷ pkts) s =
    let (ok, s') = bw_check now s len in
    let (n, s'') = checks pkts s' in ((if ok then len + n else n), s'')

-- The times of a run are in the session's window and the lengths fit 32 bits.
abbrev pub InWindow : ℕ → List (ℕ × ℕ) → Type 0
InWindow start [] = Unit
InWindow start ((now, len) ∷ pkts) =
    (start ≤ now) × (now < start + 1000) × (now < 2 ^ 64) × (len < 2 ^ 32) × InWindow start pkts

in_window :
    (now : ℕ) (s : Session) (len : ℕ)
    → s.bw_window_start_ms ≤ now
    → now < s.bw_window_start_ms + 1000
    → now < 2 ^ 64
    → len < 2 ^ 32
    → Fits s
    → let (ok, s') = bw_check now s len in
      (s'.bw_window_start_ms ≡ s.bw_window_start_ms)
      × (s'.bw_limit_bps ≡ s.bw_limit_bps)
      × (s'.bw_bytes_this_sec ≡ s.bw_bytes_this_sec + (if ok then len else 0))
unfolding bw_check
in_window now s len a b c d f = (ground arith, ground arith, ground (arith, f.used_in, f.limit_in))

-- From a session whose window holds no more than its limit, where the limit is below 2^63, in any run of
-- packets below 2^32 bytes that come within the window, `bw_check` counts the bytes it lets through, and
-- they stay within what the limit leaves.
pub window_total :
    (pkts : List (ℕ × ℕ)) (s : Session)
    → InWindow s.bw_window_start_ms pkts
    → Fits s
    → let (n, s') = checks pkts s in
      (s'.bw_bytes_this_sec ≡ s.bw_bytes_this_sec + n) × (s.bw_bytes_this_sec + n ≤ s.bw_limit_bps)
unfolding checks
window_total [] s w f = (omega arith, omega (arith, f.used_in))
window_total ((now, len) ∷ pkts) s w f =
    let (start, limit, used) = in_window now s len w.0 w.1 w.2 w.3 f in
    let next = (bw_check now s len).1 in
    let (count, within) = window_total pkts next (rw start w.4) (bw_check-Fits now s len w.3 f) in
    (ground (arith, count, used), ground (arith, within, used, limit))

-- At a time no earlier than the start of the window, `bw_check` lets a packet below 2^32 bytes through exactly if
-- it fits the limit, below 2^63, with what its window has let through, which is nothing once a second has passed.
pub bw_check_iff :
    (now : ℕ) (s : Session) (len : ℕ)
    → s.bw_window_start_ms ≤ now
    → now < 2 ^ 64
    → len < 2 ^ 32
    → Fits s
    → ((bw_check now s len).0 ≡ true) ↔ (
        (if ltb now (s.bw_window_start_ms + 1000) then s.bw_bytes_this_sec else 0) + len
        ≤ s.bw_limit_bps)
unfolding bw_check
bw_check_iff now s len a c d f = ground (arith, f.used_in, f.limit_in)
