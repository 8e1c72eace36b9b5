-- ===== src/Congestion/Growth.antt =====
-- `rc_cubic_on_ack` of src/core/rc_congestion.c: the window over a run of acknowledgements and losses.
use robov.Prelude.{
  ℕ, ◌+◌, ◌/◌, ◌^◌, ◌≤◌, ◌<◌, ◌≡◌, refl, ap, ◌∙◌, false, inl, inr, Option, none, some, List, [],
  ◌∷◌, arith, if◌then◌else◌, ltb, ◌==◌, add32, mul32, Bool-cases,
}
use mathlib.Core.Path.{subst}
use native.Mathlib.Nat.{div-lt_iff_lt-mul}
use robov.Congestion.{
  Cubic, CcState, slow_start, congestion_avoidance, fast_recovery, min_cwnd, icbrt, root_arg,
  on_loss, on_ack, by_state, count_ack, update_rtt, set_pacing, set_pacing?, avoid?,
  leave_slow_start, grow, recover?, recover, loss_w_max, ack_recovery, ack_slow_start,
  ack_avoidance, cubic_eval,
}

-- What happens to a connection.
pub data Event : Type 0 where
  ack : ℕ → ℕ → Event
  loss : Event

pub step : Cubic → Event → Option Cubic
step c (ack bytes rtt) = on_ack c bytes rtt
step c loss = on_loss c

-- A run, which a fault ends.
pub run : Cubic → List Event → Option Cubic
run c [] = some c
run c (e ∷ es) = elim (step c e) [ none ↦ none | some c' ↦ run c' es ]

count_ack_keeps :
    (c : Cubic) (bytes rtt : ℕ)
    → ((count_ack c bytes rtt).state ≡ c.state) × ((count_ack c bytes rtt).cwnd ≡ c.cwnd)
unfolding count_ack update_rtt
count_ack_keeps c bytes rtt = (ground arith, ground arith)

recovery_on_ack :
    (c : Cubic) (bytes rtt : ℕ)
    → c.state ≡ fast_recovery
    → (c' : Cubic) × (on_ack c bytes rtt ≡ some c') × (c'.state ≡ fast_recovery)
unfolding on_ack by_state set_pacing? set_pacing ack_recovery
recovery_on_ack c bytes rtt h = elim (Bool-cases (bytes == 0)) [
  | inl nil ↦ (c, ap (λ b. if b then some c else set_pacing? (by_state c1.state c1 bytes)) nil, h)
  | inr some' ↦ (
    set_pacing (ack_recovery c1 bytes),
    ap (λ b. if b then some c else set_pacing? (by_state c1.state c1 bytes)) some'
        ∙ ap (λ s. set_pacing? (by_state s c1 bytes)) s,
    s,
  )
]
  where
    c1 : Cubic
    c1 = count_ack c bytes rtt

    s : c1.state ≡ fast_recovery
    s = (count_ack_keeps c bytes rtt).0 ∙ h

abbrev pub state_of : Option Cubic → CcState
state_of none = fast_recovery
state_of (some c) = c.state

on_loss-state : (c : Cubic) (o : Option ℕ) → state_of (recover? c o) ≡ fast_recovery
unfolding recover? recover
on_loss-state c none = refl
on_loss-state c (some k) = refl

recovery_step :
    (c : Cubic) (e : Event) → c.state ≡ fast_recovery → state_of (step c e) ≡ fast_recovery
unfolding step on_loss
recovery_step c (ack bytes rtt) h =
    let (d, f, s) = recovery_on_ack c bytes rtt h in ap state_of f ∙ s
recovery_step c loss h = on_loss-state c (icbrt (root_arg (loss_w_max c)))

-- From fast recovery every run of acknowledgements and losses that no fault ends is still in fast
-- recovery at its end.
pub recovery_lasts :
    (c : Cubic) (es : List Event) → c.state ≡ fast_recovery → state_of (run c es) ≡ fast_recovery
unfolding run
recovery_lasts c [] h = h
recovery_lasts c (e ∷ es) h = at (λ d k. recovery_lasts d es k) (step c e) (recovery_step c e h)
  where
    at :
        ((d : Cubic) → d.state ≡ fast_recovery → state_of (run d es) ≡ fast_recovery)
        → (o : Option Cubic) → state_of o ≡ fast_recovery
        → state_of (elim o [ none ↦ none | some d ↦ run d es ]) ≡ fast_recovery
    at ih none k = refl
    at ih (some d) k = ih d k

-- If there is a result, its window is above `n`.
abbrev pub Above : ℕ → Option Cubic → Type 0
Above n none = Unit
Above n (some c) = n < c.cwnd

avoid?-Above : (c : Cubic) (n cwnd : ℕ) (o : Option ℕ) → n < cwnd → Above n (avoid? c cwnd o)
unfolding avoid? leave_slow_start
avoid?-Above c n cwnd none h = tt
avoid?-Above c n cwnd (some k) h = h

share_small : (x n : ℕ) → x < 2 ^ 32 → 4 ≤ n → x / n < 2 ^ 30
share_small x n a b = (div-lt_iff_lt-mul (omega (arith, b))).1 (omega (arith, a, b))

module _ (c : Cubic) (bytes : ℕ) (least : min_cwnd ≤ c.cwnd) (room : c.cwnd + bytes < 2 ^ 31)
    (more : 0 < bytes) where
  slow-Above : Above c.cwnd (ack_slow_start c bytes)
  unfolding ack_slow_start
  slow-Above =
      let cwnd = add32 c.cwnd bytes in
      let up : c.cwnd < cwnd = omega (arith, room, more) in
      elim (Bool-cases (ltb cwnd c.ssthresh)) [
        | inl below ↦ rw below up
        | inr at ↦ rw at (avoid?-Above c c.cwnd cwnd (icbrt (root_arg cwnd)) up)
      ]

  grow-Above : (o : Option ℕ) → Above c.cwnd (grow c bytes o)
  unfolding grow
  grow-Above none = tt
  grow-Above (some w) = ground (
    arith,
    least,
    room,
    share_small (mul32 c.mss bytes) c.cwnd (omega arith) (omega (arith, least)),
  )

  recovery-Above : Above c.cwnd (some (ack_recovery c bytes))
  unfolding ack_recovery
  recovery-Above = omega (arith, room, more)

switch-Above :
    (st : CcState) (c : Cubic) (bytes : ℕ)
    → min_cwnd ≤ c.cwnd
    → c.cwnd + bytes < 2 ^ 31
    → 0 < bytes
    → Above c.cwnd (by_state st c bytes)
unfolding by_state ack_avoidance
switch-Above slow_start c bytes l r m = slow-Above c bytes l r m
switch-Above congestion_avoidance c bytes l r m =
    let d = record c { t_sec = add32 c.t_sec 1 } in grow-Above d bytes l r m (cubic_eval d)
switch-Above fast_recovery c bytes l r m = recovery-Above c bytes l r m

set_pacing?-Above : (n : ℕ) (o : Option Cubic) → Above n o → Above n (set_pacing? o)
unfolding set_pacing? set_pacing
set_pacing?-Above n none h = tt
set_pacing?-Above n (some c) h = h

-- In every state an acknowledgement of new bytes widens the window, unless a fault ends it: the
-- window was at least the minimum, and with the new bytes below 2^31.
pub on_ack-Above :
    (c : Cubic) (bytes rtt : ℕ)
    → min_cwnd ≤ c.cwnd
    → c.cwnd + bytes < 2 ^ 31
    → 0 < bytes
    → Above c.cwnd (on_ack c bytes rtt)
unfolding on_ack
on_ack-Above c bytes rtt l r m =
    let c1 = count_ack c bytes rtt in
    let same = (count_ack_keeps c bytes rtt).1 in
    let some' : (bytes == 0) ≡ false = ground (arith, m) in
    rw some' (
      set_pacing?-Above c.cwnd (by_state c1.state c1 bytes) (
        subst (λ n. Above n (by_state c1.state c1 bytes)) same
          (switch-Above c1.state c1 bytes (omega (arith, same, l)) (omega (arith, same, r)) m)))
