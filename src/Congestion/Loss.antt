-- ===== src/Congestion/Loss.antt =====
-- `rc_cubic_on_loss` of src/core/rc_congestion.c.
use robov.Prelude.{ℕ, ◌*◌, ◌/◌, ◌^◌, ◌≤◌, ◌<◌, ◌≡◌, refl, ap, max, some, arith}
use robov.Congestion.{
  Cubic, fast_recovery, min_cwnd, beta, beta_scale, loss_w_max, loss_cwnd, recover, recover?,
  on_loss,
}
use robov.Congestion.Root.{icbrt_ends}

-- What a loss leaves, as against before it.
pub record Reduced (c c' : Cubic) : Type 0 where
  pub recovering : c'.state ≡ fast_recovery
  pub window : c'.cwnd ≡ max min_cwnd (c.cwnd * beta / beta_scale)
  pub threshold : c'.ssthresh ≡ c'.cwnd
  pub prior : c'.cwnd_prior ≡ c.cwnd
  pub plateau : c'.w_max ≤ c.cwnd
  pub rewound : c'.t_sec ≡ 0

top : (c : Cubic) → c.cwnd < 2 ^ 32 → loss_w_max c < 2 ^ 32
unfolding loss_w_max
top c h = ground (arith, h)

reduces : (c : Cubic) (k : ℕ) → c.cwnd < 2 ^ 32 → Reduced c (recover c k)
unfolding recover loss_w_max loss_cwnd
reduces c k h = record {
  recovering = refl;
  window = ground (arith, h);
  threshold = refl;
  prior = refl;
  plateau = ground (arith, h);
  rewound = refl;
}

-- From any state whose window fits 32 bits `rc_cubic_on_loss` ends, in fast recovery, with the
-- window cut to 717/1024 of what it was but not below the minimum, the threshold at the new window, `W_max` no
-- higher than the old window, and the clock of the cubic at 0.
pub on_loss_lem :
    (c : Cubic) → c.cwnd < 2 ^ 32 → (c' : Cubic) × (on_loss c ≡ some c') × Reduced c c'
unfolding on_loss recover?
on_loss_lem c h =
    let (k, e) = icbrt_ends (loss_w_max c) (top c h) in
    (recover c k, ap (recover? c) e, reduces c k h)
