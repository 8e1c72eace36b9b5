-- ===== src/Ring/PowTwo.antt =====
-- `next_pow2` by what it is for.
use native.Mathlib.Nat.{
  pow-suc, one-le-pow, div-div-eq-div-mul, div-add-mod, mod-lt, add-zero, add-suc, add_comm,
  div-eq_of_lt, mod-eq_of_lt, div-eq_of_lt-le, pow-le-pow_right,
}
use native.Mathlib.Decide.{dec_le, dec_lt}
use robov.Prelude.{
  ℕ, zero, suc, ◌+◌, ◌-◌, ◌*◌, ◌/◌, ◌%◌, ◌^◌, ◌≤◌, ◌<◌, ◌≡◌, refl, sym, ◌∙◌, ap, arith, bit_or,
  sub32, add32,
}
use robov.Prelude.Bits.{or_step, or-half, by_digits}
use robov.Ring.{smear, next_pow2}

or-zero : (a : ℕ) → bit_or a 0 ≡ a
or-zero a =
    by_digits (λ x y z. bit_or x 0 ≡ x) refl (λ x y z ih. omega (arith, or_step x 0, ih)) a 0 0

pub pow_add : (a b : ℕ) → 2 ^ (a + b) ≡ 2 ^ a * 2 ^ b
pow_add a zero = rw add-zero (omega arith)
pow_add a (suc b) = rw (add-suc, pow-suc, pow-suc, pow_add a b) (omega arith)

pos_pow : (k : ℕ) → 1 ≤ 2 ^ k
pos_pow k = one-le-pow k 2 (omega arith)

mul-two-pow : (q k : ℕ) → q * 2 ^ suc k ≡ 2 * (q * 2 ^ k)
mul-two-pow q k = omega (arith, ap (λ (t : ℕ). q * t) (pow-suc 2 k))

-- `|` with a mask of `k` bits sets them.
or_mask : (k q r : ℕ) → r < 2 ^ k → bit_or (q * 2 ^ k + r) (2 ^ k - 1) ≡ q * 2 ^ k + (2 ^ k - 1)
or_mask zero q r h = ground (arith, or-zero (q * 1 + r))
or_mask (suc k) q r h = ground (
  arith,
  or_step (q * 2 ^ suc k + r) (2 ^ suc k - 1),
  mul-two-pow q k,
  pow-suc 2 k,
  pos_pow k,
  or_mask k q (r / 2) (omega (arith, pow-suc 2 k)),
)

or-shift : (k a b : ℕ) → bit_or a b / 2 ^ k ≡ bit_or (a / 2 ^ k) (b / 2 ^ k)
or-shift zero a b = ground arith
or-shift (suc k) a b =
    rw (half (bit_or a b), half a, half b, or-half a b) (or-shift k (a / 2) (b / 2))
  where
    half : (x : ℕ) → x / 2 ^ suc k ≡ x / 2 / 2 ^ k
    half x =
        ap (λ (m : ℕ). x / m) (omega (arith, pow-suc 2 k)) ∙ sym (div-div-eq-div-mul x 2 (2 ^ k))

-- Of a number of `len` bits the top `s` are set, or all of them.
data Smeared (s len x : ℕ) : Type 0 where
  top : (j : ℕ) → len ≡ s + j → x / 2 ^ j ≡ 2 ^ s - 1 → Smeared s len x
  full : len ≤ s → x ≡ 2 ^ len - 1 → Smeared s len x

pred_mul : (p m : ℕ) → 1 ≤ p → (p - 1) * m + m ≡ p * m
pred_mul zero m h = elim h [ ]
pred_mul (suc p) m h = rw suc_pred (omega arith)
  where
    suc_pred : suc p - 1 ≡ p
    suc_pred = omega arith

-- `2 ^ s - 1` in the upper part, and what `|` with `2 ^ s - 1` makes of it.
or_full : (s j x : ℕ) → x / 2 ^ j ≡ 2 ^ s - 1 → bit_or x (2 ^ j - 1) ≡ 2 ^ (s + j) - 1
or_full s j x e =
    ap (λ y. bit_or y (2 ^ j - 1)) (omega (arith, div-add-mod x (2 ^ j)))
    ∙ or_mask j (x / 2 ^ j) (x % 2 ^ j) (mod-lt x (pos_pow j))
    ∙ omega (
      arith,
      ap (λ (t : ℕ). t * 2 ^ j) e,
      pred_mul (2 ^ s) (2 ^ j) (pos_pow s),
      pos_pow j,
      pow_add s j,
    )

shift_twice : (x a b : ℕ) → x / 2 ^ a / 2 ^ b ≡ x / 2 ^ (a + b)
shift_twice x a b = rw pow_add (div-div-eq-div-mul x (2 ^ a) (2 ^ b))

-- The bits below the top ones are many: twice as many are set.
smear_far : (s i x : ℕ) → x / 2 ^ (s + i) ≡ 2 ^ s - 1 → smear s x / 2 ^ i ≡ 2 ^ (s + s) - 1
unfolding smear
smear_far s i x h =
    or-shift i x (x / 2 ^ s)
    ∙ ap (bit_or (x / 2 ^ i)) (shift_twice x s i ∙ h)
    ∙ or_full s s (x / 2 ^ i) (shift_twice x i s ∙ ap (λ (n : ℕ). x / 2 ^ n) (add_comm i s) ∙ h)

full_shift : (s j d : ℕ) → s ≡ j + d → (2 ^ s - 1) / 2 ^ d ≡ 2 ^ j - 1
full_shift s j d e =
    div-eq_of_lt-le (2 ^ d) (omega (arith, power, pred_mul (2 ^ j) (2 ^ d) (pos_pow j), pos_pow d))
      (omega (arith, power, pred_mul (2 ^ j) (2 ^ d) (pos_pow j), pos_pow s))
  where
    power : 2 ^ s ≡ 2 ^ j * 2 ^ d
    power = ap (λ (n : ℕ). 2 ^ n) e ∙ pow_add j d

-- The bits below the top ones are few: all are set.
smear_near : (s j x : ℕ) → j ≤ s → x / 2 ^ j ≡ 2 ^ s - 1 → smear s x ≡ 2 ^ (s + j) - 1
unfolding smear
smear_near s j x h e = ap (bit_or x) below ∙ or_full s j x e
  where
    below : x / 2 ^ s ≡ 2 ^ j - 1
    below =
        ap (λ (n : ℕ). x / 2 ^ n) (omega arith)
        ∙ sym (shift_twice x j (s - j))
        ∙ ap (λ (y : ℕ). y / 2 ^ (s - j)) e
        ∙ full_shift s j (s - j) (omega arith)

smear-Smeared : {s len x : ℕ} → Smeared s len x → Smeared (s + s) len (smear s x)
smear-Smeared {s} {len} {x} (top j e h) = elim (dec_le s j) [
  | yes p ↦
      top (j - s) (omega arith)
        (smear_far s (j - s) x (ap (λ (n : ℕ). x / 2 ^ n) (omega arith) ∙ h))
  | no p ↦
      full (omega arith)
        (smear_near s j x (omega arith) h ∙ ap (λ (n : ℕ). 2 ^ n - 1) (omega arith))
]
smear-Smeared {s} {len} {x} (full h e) =
    full (omega arith) (unfold smear in (ap (bit_or x) gone ∙ or-zero x ∙ e))
  where
    gone : x / 2 ^ s ≡ 0
    gone = div-eq_of_lt (omega (arith, e, pos_pow len, pow-le-pow_right {n = 2} (omega arith) h))

-- How many bits `x` has.
bit_length :
    (k x : ℕ)
    → x < 2 ^ k
    → (len : ℕ) × (len ≤ k) × (x < 2 ^ len) × (2 ^ len ≤ 2 * x + 1) × Smeared 1 len x
bit_length zero x h = (0, omega arith, h, omega arith, full (omega arith) (omega arith))
bit_length (suc k) x h = elim (dec_lt x (2 ^ k)) [
  | yes p ↦ let (len, a, b, c, d) = bit_length k x p in (len, omega arith, b, c, d)
  | no p ↦ (
    suc k,
    omega arith,
    h,
    omega (arith, pow-suc 2 k),
    top k (omega arith) (div-eq_of_lt-le (2 ^ k) (omega arith) (omega (arith, pow-suc 2 k))),
  )
]

all_ones : {y : ℕ} (j : ℕ) → j ≡ 0 → y / 2 ^ j ≡ 2 ^ 32 - 1 → y ≡ 2 ^ 32 - 1
all_ones {y} j e q = omega (arith, ap (λ (n : ℕ). y / 2 ^ n) e, q)

five_smears :
    (len x : ℕ)
    → len ≤ 32
    → Smeared 1 len x
    → smear 16 (smear 8 (smear 4 (smear 2 (smear 1 x)))) ≡ 2 ^ len - 1
five_smears len x h s =
    finish (smear-Smeared (smear-Smeared (smear-Smeared (smear-Smeared (smear-Smeared s)))))
  where
    finish : {y : ℕ} → Smeared 32 len y → y ≡ 2 ^ len - 1
    finish (full p e) = e
    finish (top j e q) = omega (arith, all_ones j (omega arith) q, len_is)
      where
        len_is : 2 ^ len ≡ 2 ^ 32
        len_is = ap (λ (n : ℕ). 2 ^ n) {y = 32} (omega arith)

next_pow2-Smeared :
    (v len : ℕ) → len ≤ 32 → Smeared 1 len (sub32 v 1) → next_pow2 v ≡ 2 ^ len % 2 ^ 32
unfolding next_pow2
next_pow2-Smeared v len h s =
    ap (λ x. add32 x 1) (five_smears len (sub32 v 1) h s)
    ∙ ap (λ x. x % 2 ^ 32) (omega (arith, pos_pow len))

-- For a size from 1 to 2 ^ 31 `next_pow2` gives the smallest power of two that is not below it.
pub next_pow2-IsLeast :
    (v : ℕ)
    → 1 ≤ v
    → v ≤ 2 ^ 31
    → (k : ℕ) × (k ≤ 31) × (next_pow2 v ≡ 2 ^ k) × (v ≤ 2 ^ k) × (2 ^ k < 2 * v)
next_pow2-IsLeast v h k =
    let (len, a, b, c, d) = bit_length 31 (sub32 v 1) (omega arith) in
    (
      len,
      a,
      next_pow2-Smeared v len (omega arith) d
          ∙ mod-eq_of_lt (omega (arith, pow-le-pow_right {n = 2} (omega arith) a)),
      omega arith,
      omega arith,
    )

-- A larger size wraps to 0.
pub next_pow2_wraps : (v : ℕ) → 2 ^ 31 < v → v < 2 ^ 32 → next_pow2 v ≡ 0
next_pow2_wraps v h k = next_pow2-Smeared v 32 (omega arith) (top 31 refl (omega arith))
