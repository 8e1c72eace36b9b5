-- ===== src/Prelude/Bits.antt =====
-- The native `bit_and`, `bit_or` and `bit_xor`, one binary digit at a time, and the laws that the
-- checksums, masks and hashes use.
use Prim.Native.Nat.{ℕ, zero, suc, ◌+◌, ◌-◌, ◌*◌, ◌/◌, ◌%◌, ◌^◌, ◌≤◌, ◌<◌, min, max}
use Prim.Native.Nat.{bit_and, bit_or, bit_xor, digits, bitwise, differ}
use Prim.Native.Nat.{bit_and-bitwise, bit_or-bitwise, bit_xor-bitwise}
use mathlib.Core.Path.{◌≡◌, refl, ap, ◌∙◌}
use native.Mathlib.Nat.{le_refl, pow-suc, one-le-pow}
use native.Mathlib.Omega.{arith}

-- `digits` with enough fuel does not depend on the fuel.
module _ (z : ℕ → ℕ) (f : ℕ → ℕ → ℕ) where
  digits-enough : (n m a b : ℕ) → a ≤ n → a ≤ m → digits z f n a b ≡ digits z f m a b
  digits-enough zero zero zero b hn hm = refl
  digits-enough zero zero (suc a) b hn hm = refl
  digits-enough zero (suc m) zero b hn hm = refl
  digits-enough zero (suc m) (suc a) b hn hm = elim hn [ ]
  digits-enough (suc n) zero zero b hn hm = refl
  digits-enough (suc n) zero (suc a) b hn hm = elim hm [ ]
  digits-enough (suc n) (suc m) zero b hn hm = refl
  digits-enough (suc n) (suc m) (suc a) b hn hm =
      ap (λ r. r * 2 + f (suc a % 2) (b % 2))
        (digits-enough n m (suc a / 2) (b / 2) (omega arith) (omega arith))

  bitwise-digit :
      (a b : ℕ)
      → bitwise z f (suc a) b ≡ bitwise z f (suc a / 2) (b / 2) * 2 + f (suc a % 2) (b % 2)
  bitwise-digit a b =
      ap (λ r. r * 2 + f (suc a % 2) (b % 2))
        (digits-enough a (suc a / 2) (suc a / 2) (b / 2) (omega arith) (le_refl _))

differ-mod : (a b : ℕ) → differ (a % 2) (b % 2) ≡ (a + b) % 2
differ-mod a b = go (a % 2) (b % 2) (omega arith) (omega arith) ∙ omega arith
  where
    go : (x y : ℕ) → x < 2 → y < 2 → differ x y ≡ (x + y) % 2
    go zero zero p q = refl
    go zero (suc zero) p q = refl
    go zero (suc (suc y)) p q = absurd (omega arith)
    go (suc zero) zero p q = refl
    go (suc zero) (suc zero) p q = refl
    go (suc zero) (suc (suc y)) p q = absurd (omega arith)
    go (suc (suc x)) y p q = absurd (omega arith)

pub and_step : (a b : ℕ) → bit_and a b ≡ bit_and (a / 2) (b / 2) * 2 + min (a % 2) (b % 2)
and_step zero b = simp bit_and-bitwise (omega arith)
and_step (suc a) b = simp bit_and-bitwise (bitwise-digit (λ y. 0) min a b)

pub or_step : (a b : ℕ) → bit_or a b ≡ bit_or (a / 2) (b / 2) * 2 + max (a % 2) (b % 2)
or_step zero b = simp bit_or-bitwise (omega arith)
or_step (suc a) b = simp bit_or-bitwise (bitwise-digit (λ y. y) max a b)

pub xor_step : (a b : ℕ) → bit_xor a b ≡ bit_xor (a / 2) (b / 2) * 2 + (a + b) % 2
xor_step zero b = simp bit_xor-bitwise (omega arith)
xor_step (suc a) b =
    simp bit_xor-bitwise (omega (arith, bitwise-digit (λ y. y) differ a b, differ-mod (suc a) b))

pub xor-half : (a b : ℕ) → bit_xor a b / 2 ≡ bit_xor (a / 2) (b / 2)
xor-half a b = omega (arith, xor_step a b)

pub xor-mod : (a b : ℕ) → bit_xor a b % 2 ≡ (a + b) % 2
xor-mod a b = omega (arith, xor_step a b)

pub or-half : (a b : ℕ) → bit_or a b / 2 ≡ bit_or (a / 2) (b / 2)
or-half a b = omega (arith, or_step a b)

pub or-mod : (a b : ℕ) → bit_or a b % 2 ≡ max (a % 2) (b % 2)
or-mod a b = omega (arith, or_step a b)

-- Induction on the binary digits of three numbers at once.
module _ {ℓ} (P : ℕ → ℕ → ℕ → Type ℓ) (base : P 0 0 0)
    (step : (a b c : ℕ) → P (a / 2) (b / 2) (c / 2) → P a b c) where
  digits_below : (k a b c : ℕ) → a ≤ k → b ≤ k → c ≤ k → P a b c
  digits_below zero zero zero zero p q r = base
  digits_below zero zero zero (suc c) p q r = elim r [ ]
  digits_below zero zero (suc b) c p q r = elim q [ ]
  digits_below zero (suc a) b c p q r = elim p [ ]
  digits_below (suc k) a b c p q r =
      step a b c (digits_below k (a / 2) (b / 2) (c / 2) (omega arith) (omega arith) (omega arith))

  pub by_digits : (a b c : ℕ) → P a b c
  by_digits a b c = digits_below (a + b + c) a b c (omega arith) (omega arith) (omega arith)

pub xor-zero : (a : ℕ) → bit_xor a 0 ≡ a
xor-zero a =
    by_digits (λ x y z. bit_xor x 0 ≡ x) refl (λ x y z ih. omega (arith, xor_step x 0, ih)) a 0 0

pub xor_self : (a : ℕ) → bit_xor a a ≡ 0
xor_self a =
    by_digits (λ x y z. bit_xor x x ≡ 0) refl (λ x y z ih. omega (arith, xor_step x x, ih)) a 0 0

pub xor_comm : (a b : ℕ) → bit_xor a b ≡ bit_xor b a
xor_comm a b =
    by_digits (λ x y z. bit_xor x y ≡ bit_xor y x) refl
      (λ x y z ih. omega (arith, xor_step x y, xor_step y x, ih)) a b 0

pub zero-xor : (a : ℕ) → bit_xor 0 a ≡ a
zero-xor a = xor_comm 0 a ∙ xor-zero a

pub xor_assoc : (a b c : ℕ) → bit_xor (bit_xor a b) c ≡ bit_xor a (bit_xor b c)
xor_assoc =
    by_digits (λ x y z. bit_xor (bit_xor x y) z ≡ bit_xor x (bit_xor y z)) refl
      (λ x y z ih. ground (
        arith,
        xor_step (bit_xor x y) z,
        xor_step x (bit_xor y z),
        xor-half x y,
        xor-half y z,
        xor-mod x y,
        xor-mod y z,
        ih,
      ))

and-zero : (a : ℕ) → bit_and a 0 ≡ 0
and-zero a =
    by_digits (λ x y z. bit_and x 0 ≡ 0) refl (λ x y z ih. omega (arith, and_step x 0, ih)) a 0 0

mul-two-pow : (q k : ℕ) → q * 2 ^ suc k ≡ 2 * (q * 2 ^ k)
mul-two-pow q k = omega (arith, ap (λ (t : ℕ). q * t) (pow-suc 2 k))

-- A mask keeps the low part of a sum of parts.
and_mask_fields : (k q r : ℕ) → r < 2 ^ k → bit_and (q * 2 ^ k + r) (2 ^ k - 1) ≡ r
and_mask_fields zero q r h = rw and-zero (omega arith)
and_mask_fields (suc k) q r h = ground (
  arith,
  and_step (q * 2 ^ suc k + r) (2 ^ suc k - 1),
  mul-two-pow q k,
  pow-suc 2 k,
  one-le-pow k 2,
  and_mask_fields k q (r / 2) (omega (arith, pow-suc 2 k)),
)

-- A mask of `k` low bits is the remainder by `2 ^ k`.
pub and_mask : (k a : ℕ) → bit_and a (2 ^ k - 1) ≡ a % 2 ^ k
and_mask k a = ground (arith, one-le-pow k 2, and_mask_fields k (a / 2 ^ k) (a % 2 ^ k))

-- `^` of a low part and a multiple of `2 ^ k` is their sum.
pub xor_fields : (k q r : ℕ) → r < 2 ^ k → bit_xor r (q * 2 ^ k) ≡ q * 2 ^ k + r
xor_fields zero q r h = ground (arith, zero-xor (q * 1))
xor_fields (suc k) q r h = ground (
  arith,
  xor_step r (q * 2 ^ suc k),
  mul-two-pow q k,
  xor_fields k q (r / 2) (omega (arith, pow-suc 2 k)),
)

pub or-lt : (k a b : ℕ) → a < 2 ^ k → b < 2 ^ k → bit_or a b < 2 ^ k
or-lt zero a b ha hb = ground (arith, or_step 0 0, ha, hb)
or-lt (suc k) a b ha hb = ground (
  arith,
  or_step a b,
  pow-suc 2 k,
  or-lt k (a / 2) (b / 2) (omega (arith, ha, pow-suc 2 k)) (omega (arith, hb, pow-suc 2 k)),
)

pub xor-lt : (k a b : ℕ) → a < 2 ^ k → b < 2 ^ k → bit_xor a b < 2 ^ k
xor-lt zero a b ha hb = ground (arith, xor_step 0 0, ha, hb)
xor-lt (suc k) a b ha hb = ground (
  arith,
  xor_step a b,
  pow-suc 2 k,
  xor-lt k (a / 2) (b / 2) (omega (arith, ha, pow-suc 2 k)) (omega (arith, hb, pow-suc 2 k)),
)

-- No bit is set in `a | b` only if none is in either.
pub or-eq_zero : (a b : ℕ) → bit_or a b ≡ 0 → (a ≡ 0) × (b ≡ 0)
or-eq_zero a b =
    by_digits (λ x y z. bit_or x y ≡ 0 → (x ≡ 0) × (y ≡ 0)) (λ e. (refl, refl))
      (λ x y z ih e.
        let step = or_step x y in
        let halves = ih (omega (arith, step, e)) in
        (omega (arith, step, e, halves.0), omega (arith, step, e, halves.1)))
      a b 0

-- No bit is set in `a ^ b` only if the two are equal.
pub xor-eq_zero : (a b : ℕ) → bit_xor a b ≡ 0 → a ≡ b
xor-eq_zero a b =
    by_digits (λ x y z. bit_xor x y ≡ 0 → x ≡ y) (λ e. refl)
      (λ x y z ih e.
        let step = xor_step x y in
        let halves = ih (omega (arith, step, e)) in omega (arith, step, e, halves))
      a b 0
