-- ===== src/Retransmit/Slots.antt =====
-- The circular array of `rc_retx_state_t`: 4096 slots, reached through `uint32_t` indices that wrap,
-- and the loop `for (i = 0; i < count; i++) { e = &entries[idx % MAX]; ...; idx++; }`.
use robov.Prelude.{
  ℕ, zero, suc, ◌+◌, ◌%◌, ◌≤◌, ◌<◌, ◌≡◌, ◌≢◌, refl, ap, ap₂, ◌∙◌, Bool, List, [], ◌∷◌, map, arith,
  if◌then◌else◌, length, get_or, set, length-set, add32,
}

abbrev pub queue_max : ℕ
queue_max = 4096

module _ {A : Type 0} where
  pub get_or-set_self :
      (xs : List A) (i : ℕ) (v d : A) → i < length xs → get_or (set xs i v) i d ≡ v
  get_or-set_self [] i v d h = absurd (omega arith)
  get_or-set_self (x ∷ xs) zero v d h = refl
  get_or-set_self (x ∷ xs) (suc i) v d h = get_or-set_self xs i v d (omega arith)

  pub get_or-set_ne :
      (xs : List A) (i j : ℕ) (v d : A) → i ≢ j → get_or (set xs i v) j d ≡ get_or xs j d
  get_or-set_ne [] i j v d h = refl
  get_or-set_ne (x ∷ xs) zero zero v d h = absurd (h refl)
  get_or-set_ne (x ∷ xs) zero (suc j) v d h = refl
  get_or-set_ne (x ∷ xs) (suc i) zero v d h = refl
  get_or-set_ne (x ∷ xs) (suc i) (suc j) v d h = get_or-set_ne xs i j v d (λ e. h (ap suc e))

module _ {A : Type 0} where
  -- How many entries pass the test.
  unfoldable pub count_if : (A → Bool) → List A → ℕ
  count_if hit [] = 0
  count_if hit (e ∷ es) = (if hit e then 1 else 0) + count_if hit es

module _ {A : Type 0} (d : A) where
  abbrev pub slot : List A → ℕ → A
  slot es idx = get_or es (idx % queue_max) d

  -- The `n` entries from index `idx` on.
  unfoldable pub slots : List A → ℕ → ℕ → List A
  slots es idx zero = []
  slots es idx (suc n) = slot es idx ∷ slots es (add32 idx 1) n

  -- The loop over `n` entries from `idx` on: each becomes `f` of itself, and those that pass `hit`
  -- are counted.
  unfoldable pub sweep : (A → A) → (A → Bool) → ℕ → ℕ → List A → ℕ → List A × ℕ
  sweep f hit zero idx es hits = (es, hits)
  sweep f hit (suc n) idx es hits =
      let e = slot es idx in
      sweep f hit n (add32 idx 1) (set es (idx % queue_max) (f e))
        (if hit e then hits + 1 else hits)

  pub length-slots : (es : List A) (idx n : ℕ) → length (slots es idx n) ≡ n
  unfolding slots
  length-slots es idx zero = refl
  length-slots es idx (suc n) = ap suc (length-slots es (add32 idx 1) n)

  -- A write just before the entries does not change them.
  pub slots-set :
      (es : List A) (i idx n : ℕ) (v : A)
      → ((k : ℕ) → k < n → i ≢ (idx + k) % queue_max)
      → slots (set es i v) idx n ≡ slots es idx n
  unfolding slots
  slots-set es i idx zero v h = refl
  slots-set es i idx (suc n) v h =
      ap₂ ◌∷◌ (get_or-set_ne es i (idx % queue_max) v d (λ e. h 0 (omega arith) (omega (arith, e))))
        (slots-set es i (add32 idx 1) n v (λ k b e. h (suc k) (omega arith) (omega (arith, e))))

  module _ (f : A → A) (hit : A → Bool) where
    pub length-sweep :
        (n idx : ℕ) (es : List A) (hits : ℕ) → length (sweep f hit n idx es hits).0 ≡ length es
    unfolding sweep
    length-sweep zero idx es hits = refl
    length-sweep (suc n) idx es hits =
        length-sweep n (add32 idx 1) _ _ ∙ length-set es (idx % queue_max) (f (slot es idx))

    -- A slot that the loop does not visit keeps its entry.
    sweep_outside :
        (n idx : ℕ) (es : List A) (hits j : ℕ)
        → ((k : ℕ) → k < n → j ≢ (idx + k) % queue_max)
        → get_or (sweep f hit n idx es hits).0 j d ≡ get_or es j d
    unfolding sweep
    sweep_outside zero idx es hits j h = refl
    sweep_outside (suc n) idx es hits j h =
        sweep_outside n (add32 idx 1) _ _ j (λ k b e. h (suc k) (omega arith) (omega (arith, e)))
        ∙ get_or-set_ne es (idx % queue_max) j _ d (λ e. h 0 (omega arith) (omega (arith, e)))

    -- The loop maps `f` over the entries that it visits.
    pub slots-sweep :
        (n idx : ℕ) (es : List A) (hits : ℕ)
        → length es ≡ queue_max
        → n ≤ queue_max
        → slots (sweep f hit n idx es hits).0 idx n ≡ map f (slots es idx n)
    unfolding slots sweep
    slots-sweep zero idx es hits l h = refl
    slots-sweep (suc n) idx es hits l h =
        ap₂ ◌∷◌
          (sweep_outside n (add32 idx 1) _ _ (idx % queue_max) (λ k b e. absurd (omega (arith, e)))
            ∙ get_or-set_self es (idx % queue_max) (f (slot es idx)) d (omega arith))
          (slots-sweep n (add32 idx 1) _ _ (length-set es (idx % queue_max) _ ∙ l) (omega arith)
            ∙ ap (map f) (
                slots-set es (idx % queue_max) (add32 idx 1) n _
                  (λ k b e. absurd (omega (arith, e)))))

    pub sweep_count :
        (n idx : ℕ) (es : List A) (hits : ℕ)
        → length es ≡ queue_max
        → n ≤ queue_max
        → (sweep f hit n idx es hits).1 ≡ hits + count_if hit (slots es idx n)
    unfolding slots sweep count_if
    sweep_count zero idx es hits l h = omega arith
    sweep_count (suc n) idx es hits l h = ground (
      arith,
      sweep_count n (add32 idx 1) (set es (idx % queue_max) (f (slot es idx)))
          (if hit (slot es idx) then hits + 1 else hits)
          (length-set es (idx % queue_max) (f (slot es idx)) ∙ l),
      ap (count_if hit) (
          slots-set es (idx % queue_max) (add32 idx 1) n (f (slot es idx))
            (λ k b e. absurd (omega (arith, e)))),
    )

    pub sweep_hits :
        (n idx : ℕ) (es : List A)
        → length es ≡ queue_max
        → n ≤ queue_max
        → (sweep f hit n idx es 0).1 ≡ count_if hit (slots es idx n)
    sweep_hits n idx es l h = sweep_count n idx es 0 l h ∙ omega arith
