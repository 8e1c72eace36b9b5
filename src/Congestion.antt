-- ===== src/Congestion.antt =====
-- src/core/rc_congestion.c and include/rc_congestion.h: CUBIC congestion control. Arithmetic on
-- `uint32_t` and `uint64_t` wraps; overflow of `int64_t` in `cubic_eval` and a window of 0 in the growth
-- are faults, which give `none`.
pub mod Loss
pub mod Growth
pub mod Rtt
pub mod Root
mod Examples
use robov.Prelude.{
  ℕ, zero, suc, ◌+◌, ◌-◌, ◌*◌, ◌/◌, ◌%◌, ◌^◌, Bool, true, false, ◌&&◌, Option, none, some,
  if◌then◌else◌, ltb, leb, ◌==◌, u32, add32, sub32, mul32, add64, mul64,
}

abbrev pub init_cwnd : ℕ
init_cwnd = 14600

abbrev pub min_cwnd : ℕ
min_cwnd = 1460

abbrev pub default_mss : ℕ
default_mss = 1460

abbrev pub beta_scale : ℕ
beta_scale = 1024

abbrev pub beta : ℕ
beta = 717

abbrev pub c_scale : ℕ
c_scale = 1024

abbrev pub c_factor : ℕ
c_factor = 4

abbrev pub fc_scale : ℕ
fc_scale = 1024

abbrev pub fc_beta : ℕ
fc_beta = 819

-- `rc_cc_state_t`
pub data CcState : Type 0 where
  slow_start congestion_avoidance fast_recovery : CcState

-- `rc_cubic_t`
pub record Cubic : Type 0 where
  pub state : CcState
  pub cwnd : ℕ
  pub ssthresh : ℕ
  pub cwnd_prior : ℕ
  pub w_max : ℕ
  pub k : ℕ
  pub t_sec : ℕ
  pub srtt : ℕ
  pub rtt_var : ℕ
  pub min_rtt : ℕ
  pub rto : ℕ
  pub pacing_rate : ℕ
  pub total_acked : ℕ
  pub recovery_episodes : ℕ
  pub ack_count : ℕ
  pub mss : ℕ
  pub in_slow_start : Bool

abbrev pub cube : ℕ → ℕ
cube guess = mul64 (mul64 guess guess) guess

-- The first loop of `icbrt`: `none` is the end of the fuel.
pub double_while : ℕ → ℕ → ℕ → Option ℕ
double_while zero x guess = none
double_while (suc n) x guess =
    let rest = double_while n x (mul32 guess 2) in if leb (cube guess) x then rest else some guess

-- `n` rounds of its second loop. A quotient by a guess of 0 is 0 here.
pub newton : ℕ → ℕ → ℕ → ℕ
newton zero x guess = guess
newton (suc n) x guess =
    let rest = newton n x (u32 (add64 (mul64 2 guess) (x / mul64 guess guess) / 3)) in
    if cube guess == x then guess else rest

-- `icbrt`, where 32 doublings of the guess take it past 32 bits.
pub icbrt : ℕ → Option ℕ
unfolding double_while newton
icbrt x =
    if x == 0
    then some 0
    else elim (double_while 32 x 1) [ none ↦ none | some guess ↦ some (newton 20 x (guess / 2)) ]

-- `K` for a window: the value that both `rc_cubic_on_ack` and `rc_cubic_on_loss` give to `icbrt`.
pub root_arg : ℕ → ℕ
root_arg w_max = mul64 (mul64 w_max beta_scale) (beta_scale - beta) / c_factor

-- `cubic_eval`. The product is below 2^63 in size, or it overflows `int64_t`.
pub cubic_eval : Cubic → Option ℕ
cubic_eval c =
    let late = leb c.k c.t_sec in
    let diff = if late then c.t_sec - c.k else c.k - c.t_sec in
    let product = diff * diff * diff * c_factor in
    let step = product / (c_scale * beta_scale) in
    let w = if late then c.w_max + step else c.w_max - step in
    if ltb product (2 ^ 63) then some (u32 (if ltb w min_cwnd then min_cwnd else w)) else none

-- `rc_cubic_init`
pub init : ℕ → Cubic
init mss = record {
  state = slow_start;
  cwnd = init_cwnd;
  ssthresh = 0xFFFFFFFF;
  cwnd_prior = 0;
  w_max = 0;
  k = 0;
  t_sec = 0;
  srtt = 0;
  rtt_var = 0;
  min_rtt = 0xFFFFFFFF;
  rto = 1000;
  pacing_rate = 0;
  total_acked = 0;
  recovery_episodes = 0;
  ack_count = 0;
  mss = if ltb 0 mss then mss else default_mss;
  in_slow_start = true;
}

-- `|SRTT - R|`, where the subtraction stays within `int32_t`.
pub distance : ℕ → ℕ → ℕ
distance a b = let d = sub32 a b in if ltb d (2 ^ 31) then d else 2 ^ 32 - d

-- The clamp of `rc_cubic_update_rtt`, which compares with the minimum window.
pub clamp_rto : ℕ → ℕ
clamp_rto rto0 =
    let rto = if ltb rto0 min_cwnd then 200 else rto0 in if ltb 60000 rto then 60000 else rto

-- `rc_cubic_update_rtt`
pub update_rtt : Cubic → ℕ → Cubic
unfolding distance clamp_rto
update_rtt c rtt_ms =
    let first = c.srtt == 0 in
    let rtt_var =
      if first then rtt_ms / 2 else add32 (mul32 3 c.rtt_var) (distance c.srtt rtt_ms) / 4 in
    let srtt = if first then rtt_ms else add32 (mul32 7 c.srtt) rtt_ms / 8 in
    if rtt_ms == 0 then c else record c {
      min_rtt = if ltb rtt_ms c.min_rtt then rtt_ms else c.min_rtt;
      rtt_var = rtt_var;
      srtt = srtt;
      rto = clamp_rto (add32 srtt (mul32 4 rtt_var));
    }

-- The first lines of `rc_cubic_on_ack`.
pub count_ack : Cubic → ℕ → ℕ → Cubic
unfolding update_rtt
count_ack c bytes_acked rtt_ms =
    update_rtt
      (record c { total_acked = add64 c.total_acked bytes_acked; ack_count = add32 c.ack_count 1 })
      rtt_ms

pub leave_slow_start : Cubic → ℕ → ℕ → Cubic
leave_slow_start c cwnd k = record c {
  cwnd = cwnd;
  state = congestion_avoidance;
  in_slow_start = false;
  w_max = cwnd;
  cwnd_prior = cwnd;
  t_sec = 0;
  k = k;
}

-- The window has reached the threshold; `icbrt` gives `K`.
pub avoid? : Cubic → ℕ → Option ℕ → Option Cubic
unfolding leave_slow_start
avoid? c cwnd none = none
avoid? c cwnd (some k) = some (leave_slow_start c cwnd k)

-- Its case of the slow start.
pub ack_slow_start : Cubic → ℕ → Option Cubic
unfolding icbrt root_arg avoid?
ack_slow_start c bytes_acked =
    let cwnd = add32 c.cwnd bytes_acked in
    if ltb cwnd c.ssthresh
    then some (record c { cwnd = cwnd })
    else avoid? c cwnd (icbrt (root_arg cwnd))

-- The window that Reno would have, as the code computes it.
pub reno_target : Cubic → ℕ
reno_target c =
    mul32
      (add32 (mul32 c.w_max beta / beta_scale)
        (mul32 (3 * (beta_scale - beta)) c.t_sec / ((beta_scale + beta) * beta_scale)))
      c.mss

-- The growth towards the target, or beyond it.
pub grow : Cubic → ℕ → Option ℕ → Option Cubic
unfolding reno_target
grow c bytes_acked none = none
grow c bytes_acked (some w_cubic) =
    let w_tcp = reno_target c in
    let target = if ltb w_tcp w_cubic then w_cubic else w_tcp in
    let share = mul32 c.mss bytes_acked / c.cwnd in
    let increment = if ltb c.cwnd target then share else share / 2 in
    if c.cwnd == 0
    then none
    else some (record c { cwnd = add32 c.cwnd (if increment == 0 then 1 else increment) })

-- Its case of the congestion avoidance.
pub ack_avoidance : Cubic → ℕ → Option Cubic
unfolding cubic_eval grow
ack_avoidance c0 bytes_acked =
    let c = record c0 { t_sec = add32 c0.t_sec 1 } in grow c bytes_acked (cubic_eval c)

-- Its case of the fast recovery.
pub ack_recovery : Cubic → ℕ → Cubic
ack_recovery c bytes_acked = record c { cwnd = add32 c.cwnd bytes_acked }

-- Its last lines.
pub set_pacing : Cubic → Cubic
set_pacing c = record c {
  pacing_rate = if ltb 0 c.srtt then u32 (mul64 c.cwnd 1000 / c.srtt) else c.pacing_rate;
}

-- Its `switch`.
pub by_state : CcState → Cubic → ℕ → Option Cubic
unfolding ack_slow_start ack_avoidance ack_recovery
by_state slow_start c bytes_acked = ack_slow_start c bytes_acked
by_state congestion_avoidance c bytes_acked = ack_avoidance c bytes_acked
by_state fast_recovery c bytes_acked = some (ack_recovery c bytes_acked)

pub set_pacing? : Option Cubic → Option Cubic
unfolding set_pacing
set_pacing? none = none
set_pacing? (some c) = some (set_pacing c)

-- `rc_cubic_on_ack`
pub on_ack : Cubic → ℕ → ℕ → Option Cubic
unfolding count_ack by_state set_pacing?
on_ack c bytes_acked rtt_ms =
    let c1 = count_ack c bytes_acked rtt_ms in
    if bytes_acked == 0 then some c else set_pacing? (by_state c1.state c1 bytes_acked)

-- `W_max` after a loss, lower still if the window had not come back to the last one.
pub loss_w_max : Cubic → ℕ
loss_w_max c =
    if ltb 0 c.w_max && ltb c.cwnd c.w_max
    then u32 (mul64 c.cwnd (beta_scale + fc_beta) / (2 * fc_scale))
    else c.cwnd

-- The window after a loss.
pub loss_cwnd : Cubic → ℕ
loss_cwnd c =
    let reduced = u32 (mul64 c.cwnd beta / beta_scale) in
    if ltb reduced min_cwnd then min_cwnd else reduced

-- What `rc_cubic_on_loss` stores, where `icbrt` gave `k`.
pub recover : Cubic → ℕ → Cubic
unfolding loss_w_max loss_cwnd
recover c k = record c {
  recovery_episodes = add32 c.recovery_episodes 1;
  w_max = loss_w_max c;
  cwnd_prior = c.cwnd;
  cwnd = loss_cwnd c;
  ssthresh = loss_cwnd c;
  t_sec = 0;
  k = k;
  state = fast_recovery;
  in_slow_start = false;
}

pub recover? : Cubic → Option ℕ → Option Cubic
unfolding recover
recover? c none = none
recover? c (some k) = some (recover c k)

-- `rc_cubic_on_loss`
pub on_loss : Cubic → Option Cubic
unfolding icbrt root_arg loss_w_max recover?
on_loss c = recover? c (icbrt (root_arg (loss_w_max c)))
