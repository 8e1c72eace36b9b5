-- ===== src/Ring/Round.antt =====
-- Writing and reading bytes round a buffer, for any width of the counters: `tail` is where the oldest
-- of the `held` bytes stands, and `at` is the index behind the last.
use robov.Prelude.{
  ℕ, ◌+◌, ◌-◌, ◌%◌, ◌≤◌, ◌<◌, ◌≡◌, sym, ◌∙◌, ap, List, ◌++◌, arith, length, get_or, take, drop, ltb,
  if◌then◌else◌, length-append, length-take, length-drop,
}
use native.Mathlib.Nat.{mod-add-mod}
use robov.Prelude.Index.{get_or-append, get_or-take, get_or-drop, get_or_ext, add-mod_near}
use robov.Ring.{store, fetch}
use robov.Ring.Store.{get_or-store, length-fetch, get_or-fetch, distance}
use robov.Ring.Inv.{window, length-window, get_or-window}

module _ (buf : List ℕ) (size tail held at : ℕ) (sized : length buf ≡ size) (positive : 0 < size)
    (fits : held ≤ size) (ends : at ≡ (tail + held) % size) where
  inside : at < size
  inside = omega (arith, ends, positive)

  abbrev at_tail : ℕ
  at_tail = tail % size

  tail_inside : at_tail < size
  tail_inside = omega (arith, positive)

  -- Where the `i`-th byte after the tail stands, counted from the head.
  place :
      (i : ℕ)
      → i < size
      → distance size at ((tail + i) % size) ≡ (if ltb i (held) then i + size - held else i - held)
  place i below = ground (
    arith,
    add-mod_near size tail i,
    add-mod_near size tail (held),
    ends,
    fits,
    positive,
    tail_inside,
  )

  -- Storing `n` bytes at the head extends what the ring holds by them.
  pub window-store :
      (bytes : List ℕ) (n : ℕ)
      → n ≤ (size - held)
      → n ≤ length bytes
      → window (store buf at (size - at) bytes n) size tail (held + n)
        ≡ window buf size tail held ++ take n bytes
  window-store bytes n h k =
      get_or_ext _ _ 0
        (ground (
          arith,
          length-window (store buf at (size - at) bytes n) size tail (held + n),
          length-window buf size tail (held),
          length-append (window buf size tail (held)) (take n bytes),
          length-take n bytes,
        ))
        (λ i below.
          pointwise i
            (omega (arith, length-window (store buf at (size - at) bytes n) size tail (held + n))))
    where
      pointwise :
          (i : ℕ)
          → i < held + n
          → get_or (window (store buf at (size - at) bytes n) size tail (held + n)) i 0
            ≡ get_or (window buf size tail (held) ++ take n bytes) i 0
      pointwise i below = ground (
        arith,
        get_or-window (store buf at (size - at) bytes n) size tail (held + n) i,
        get_or-store buf size at sized inside bytes n ((tail + i) % size),
        get_or-append (window buf size tail (held)) (take n bytes) i 0,
        get_or-window buf size tail (held) i,
        get_or-take n bytes (i - held) 0,
        length-window buf size tail (held),
        place i,
        fits,
        positive,
      )

  -- Fetching `n` bytes at the tail gives the first `n` bytes that the ring holds.
  pub fetch-eq-take :
      (n : ℕ) → n ≤ held → fetch buf at_tail (size - at_tail) n ≡ take n (window buf size tail held)
  fetch-eq-take n h =
      get_or_ext _ _ 0
        (ground (
          arith,
          length-fetch buf size at_tail sized tail_inside n,
          length-take n (window buf size tail (held)),
          length-window buf size tail (held),
          fits,
        ))
        (λ i below. ground (
          arith,
          length-fetch buf size at_tail sized tail_inside n,
          get_or-fetch buf size at_tail sized tail_inside n i,
          get_or-take n (window buf size tail (held)) i 0,
          get_or-window buf size tail (held) i,
          add-mod_near size tail i,
          positive,
          fits,
        ))

  -- Moving the tail forward to `t` drops the bytes that it passes.
  pub window-drop :
      (n t : ℕ)
      → n ≤ held
      → t % size ≡ (tail + n) % size
      → window buf size t (held - n) ≡ drop n (window buf size tail held)
  window-drop n t h e =
      get_or_ext _ _ 0
        (ground (
          arith,
          length-window buf size t (held - n),
          length-drop n (window buf size tail held),
          length-window buf size tail held,
        ))
        (λ i below. ground (
          arith,
          length-window buf size t (held - n),
          get_or-window buf size t (held - n) i,
          get_or-drop n (window buf size tail held) i 0,
          get_or-window buf size tail held (n + i),
          shifted i,
        ))
    where
      shifted : (i : ℕ) → (t + i) % size ≡ (tail + (n + i)) % size
      shifted i =
          sym (mod-add-mod t size i)
          ∙ ap (λ x. (x + i) % size) e
          ∙ mod-add-mod (tail + n) size i
          ∙ ap (λ x. x % size) (omega arith)
