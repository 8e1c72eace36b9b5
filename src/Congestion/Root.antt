-- ===== src/Congestion/Root.antt =====
-- `icbrt` of src/core/rc_congestion.c: its loops end.
use robov.Prelude.{
  mul32, ℕ, zero, suc, ◌/◌, ◌^◌, ◌<◌, ◌≡◌, refl, some, arith, leb, Bool-cases, inl, inr, ◌==◌,
}
use robov.Congestion.{cube, double_while, newton, icbrt, root_arg}

abbrev doubled : ℕ → ℕ → ℕ
doubled zero g = g
doubled (suc m) g = doubled m (mul32 g 2)

abbrev more : ℕ → ℕ → ℕ
more zero n = n
more (suc m) n = suc (more m n)

-- A run that ends from a later guess ends from this one.
climb :
    (m n x g : ℕ)
    → (h : ℕ) × (double_while n x (doubled m g) ≡ some h)
    → (h : ℕ) × (double_while (more m n) x g ≡ some h)
unfolding double_while
climb zero n x g r = r
climb (suc m) n x g r = elim (Bool-cases (leb (cube g) x)) [
  | inl on ↦ let (h, e) = climb m n x (mul32 g 2) r in (h, ground (arith, on, e))
  | inr stop ↦ (g, ground (arith, stop))
]

double_while_ends : (x : ℕ) → x < 2 ^ 49 → (g : ℕ) × (double_while 32 x 1 ≡ some g)
unfolding double_while
double_while_ends x h = climb 17 15 x 1 (131072, ground (arith, h))

root_arg_bound : (w : ℕ) → w < 2 ^ 32 → root_arg w < 2 ^ 49
unfolding root_arg
root_arg_bound w h = omega arith

-- For every window of 32 bits `icbrt` comes to a value of `K`: its first loop ends before the guess leaves
-- 32 bits.
pub icbrt_ends : (w : ℕ) → w < 2 ^ 32 → (k : ℕ) × (icbrt (root_arg w) ≡ some k)
unfolding icbrt
icbrt_ends w h =
    let x = root_arg w in
    let (g, e) = double_while_ends x (root_arg_bound w h) in
    elim (Bool-cases (x == 0)) [
      | inl nil ↦ (0, rw nil refl)
      | inr some' ↦ (newton 20 x (g / 2), rw (some', e) refl)
    ]
