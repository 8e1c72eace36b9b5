-- ===== src/Prelude/Index.antt =====
-- Reading parts of lists by position, and division laws for indices that go round.
use Prim.Native.Nat.{ℕ, zero, suc, ◌+◌, ◌-◌, ◌*◌, ◌/◌, ◌%◌, ◌≤◌, ◌<◌}
use mathlib.Core.Path.{◌≡◌, refl, ap, ap₂, ◌∙◌, sym}
use mathlib.Core.List.{List, [], ◌∷◌, ◌++◌}
use native.Mathlib.Nat.{
  mul-add-mod_self_left, div-add-mod, mod-lt, mod-eq_of_lt, mod-eq-sub-mod, mod-add-mod,
}
use native.Mathlib.Omega.{arith}
use robov.Prelude.Tests.{ltb, if◌then◌else◌}
use robov.Prelude.Lists.{length, get_or, take, drop}

module _ {ℓ} {A : Type ℓ} where
  pub get_or-append :
      (xs ys : List A) (i : ℕ) (d : A)
      → get_or (xs ++ ys) i d
        ≡ (if ltb i (length xs) then get_or xs i d else get_or ys (i - length xs) d)
  get_or-append [] ys i d = ground arith
  get_or-append (x ∷ xs) ys zero d = ground arith
  get_or-append (x ∷ xs) ys (suc i) d = ground (arith, get_or-append xs ys i d)

  pub get_or-take :
      (n : ℕ) (xs : List A) (i : ℕ) (d : A)
      → get_or (take n xs) i d ≡ (if ltb i n then get_or xs i d else d)
  get_or-take zero xs i d = ground arith
  get_or-take (suc n) [] i d = ground arith
  get_or-take (suc n) (x ∷ xs) zero d = ground arith
  get_or-take (suc n) (x ∷ xs) (suc i) d = ground (arith, get_or-take n xs i d)

  pub get_or-drop :
      (n : ℕ) (xs : List A) (i : ℕ) (d : A) → get_or (drop n xs) i d ≡ get_or xs (n + i) d
  get_or-drop zero xs i d = ap (λ j. get_or xs j d) (omega arith)
  get_or-drop (suc n) [] i d = refl
  get_or-drop (suc n) (x ∷ xs) i d = ground (arith, get_or-drop n xs i d)

  pub get_or_past : (xs : List A) (i : ℕ) (d : A) → length xs ≤ i → get_or xs i d ≡ d
  get_or_past [] i d h = refl
  get_or_past (x ∷ xs) zero d h = absurd (omega arith)
  get_or_past (x ∷ xs) (suc i) d h = get_or_past xs i d (omega arith)

  -- Two lists with the same reads are equal.
  pub get_or_ext :
      (xs ys : List A) (d : A)
      → length xs ≡ length ys
      → ((i : ℕ) → i < length xs → get_or xs i d ≡ get_or ys i d)
      → xs ≡ ys
  get_or_ext [] [] d e h = refl
  get_or_ext [] (y ∷ ys) d e h = absurd (omega arith)
  get_or_ext (x ∷ xs) [] d e h = absurd (omega arith)
  get_or_ext (x ∷ xs) (y ∷ ys) d e h =
      ap₂ ◌∷◌ (h 0 (omega arith))
        (get_or_ext xs ys d (omega arith) (λ i k. h (suc i) (omega arith)))

-- A remainder by a multiple keeps the remainder by its factor.
pub mod-mod_factor : (x m c : ℕ) → x % (m * c) % m ≡ x % m
mod-mod_factor x m c =
    sym (mul-add-mod_self_left m (c * (x / (m * c))) (x % (m * c)))
    ∙ ap (λ y. y % m) (omega (arith, div-add-mod x (m * c)))

-- At most one round further, a remainder goes round at most once.
pub add-mod_near :
    (m t i : ℕ)
    → 0 < m
    → i ≤ m
    → (t + i) % m ≡ (if ltb (t % m + i) m then t % m + i else t % m + i - m)
add-mod_near m t i pos h = ground (
  arith,
  mod-lt t {m = m} pos,
  mod-add-mod t i m,
  mod-add-mod t m i,
  mod-eq_of_lt {n = t % m + i} {m = m},
  mod-eq-sub-mod {n = t % m + i} {m = m},
  mod-eq_of_lt {n = t % m + i - m} {m = m},
)
