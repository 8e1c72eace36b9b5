-- ===== src/Timers/Slots.antt =====
-- The loops over a slot in `process_timers` of src/core/rc_epoll.c: what they leave in the lowest level.
use robov.Prelude.{
  ℕ, zero, suc, ◌+◌, ◌%◌, ◌≤◌, ◌<◌, ◌≡◌, refl, sym, ap, ap₂, ◌∙◌, ◌⊎◌, inl, inr, Bool, true, false,
  ◌&&◌, some, List, [], ◌∷◌, ◌++◌, arith, if◌then◌else◌, ltb, leb, ◌==◌, add32, add64, Bool-cases,
}
use mathlib.Core.Path.{subst}
use robov.Timers.{
  Timer, Wheel, Event, timer_slots, set_slot, set_tick, timer_insert, run_timer, run_slot,
  insert_all, cascade_level, cascade,
}

-- A member of a list.
abbrev pub In : {A : Type 0} → A → List A → Type 0
In x [] = ⊥
In x (y ∷ ys) = (x ≡ y) ⊎ In x ys

pub In-left : {A : Type 0} (x : A) (xs ys : List A) → In x xs → In x (xs ++ ys)
In-left x [] ys h = elim h [ ]
In-left x (y ∷ xs) ys (inl e) = inl e
In-left x (y ∷ xs) ys (inr h) = inr (In-left x xs ys h)

pub In-right : {A : Type 0} (x : A) (xs ys : List A) → In x ys → In x (xs ++ ys)
In-right x [] ys h = h
In-right x (y ∷ xs) ys h = inr (In-right x xs ys h)

-- The clock and the ticks are kept, and no timer leaves the lowest level.
pub record Keeps (w w' : Wheel) : Type 0 where
  pub same_time : w'.current_ms ≡ w.current_ms
  pub same_ticks : w'.wheel_ticks ≡ w.wheel_ticks
  pub stays : (t : Timer) (s : ℕ) → In t (w.slots 0 s) → In t (w'.slots 0 s)

Keeps-trans : {u v w : Wheel} → Keeps u v → Keeps v w → Keeps u w
Keeps-trans k l = record {
  same_time = l.same_time ∙ k.same_time;
  same_ticks = l.same_ticks ∙ k.same_ticks;
  stays = λ t s h. l.stays t s (k.stays t s h);
}

set_slot-In :
    (f : ℕ → ℕ → List Timer) (level slot : ℕ) (t u : Timer) (l s : ℕ)
    → In u (f l s)
    → In u (set_slot f level slot (t ∷ f level slot) l s)
set_slot-In f level slot t u l s h = at ((l == level) && (s == slot)) refl
  where
    at :
        (b : Bool)
        → ((l == level) && (s == slot)) ≡ b
        → In u (if b then t ∷ f level slot else f l s)
    at true e = inr (
        let level_at : l ≡ level = ground (arith, e) in
        let slot_at : s ≡ slot = ground (arith, e) in subst (In u) (ap₂ f level_at slot_at) h)
    at false e = h

insert-Keeps : (t : Timer) (w : Wheel) → Keeps w (timer_insert t w)
unfolding timer_insert
insert-Keeps t w = record {
  same_time = refl;
  same_ticks = refl;
  stays = λ u s h. set_slot-In w.slots _ _ t u 0 s h;
}

either-Keeps :
    (w : Wheel) (b : Bool) (x y : Wheel) → Keeps w x → Keeps w y → Keeps w (if b then x else y)
either-Keeps w true x y k l = k
either-Keeps w false x y k l = l

either_run-Keeps :
    (w : Wheel) (b : Bool) (x y : List Event × Wheel)
    → Keeps w x.1
    → Keeps w y.1
    → Keeps w (if b then x else y).1
either_run-Keeps w true x y k l = k
either_run-Keeps w false x y k l = l

run_timer-Keeps : (t : Timer) (w : Wheel) → Keeps w (run_timer t w).1
unfolding run_timer
run_timer-Keeps t w =
    either_run-Keeps w (leb t.expiry_ms w.current_ms) _ _
      (either-Keeps w (ltb 0 t.interval_ms) _ _
        (insert-Keeps (record t { expiry_ms = add64 w.current_ms t.interval_ms }) w)
        (record { same_time = refl; same_ticks = refl; stays = λ u s h. h }))
      (insert-Keeps t w)

leb-true : (a b : ℕ) → a ≤ b → leb a b ≡ true
leb-true a b h = ground (arith, h)

run_timer-fires :
    (t : Timer) (w : Wheel) → t.expiry_ms ≤ w.current_ms → In (w.current_ms, t.id) (run_timer t w).0
unfolding run_timer
run_timer-fires t w h = rw ((leb-true t.expiry_ms w.current_ms h)) (inl refl)

pub run_slot-Keeps : (ts : List Timer) (w : Wheel) → Keeps w (run_slot ts w).1
unfolding run_slot
run_slot-Keeps [] w = record { same_time = refl; same_ticks = refl; stays = λ u s h. h }
run_slot-Keeps (t ∷ ts) w = Keeps-trans (run_timer-Keeps t w) (run_slot-Keeps ts (run_timer t w).1)

pub run_slot-fires :
    (ts : List Timer) (w : Wheel) (t : Timer)
    → In t ts
    → t.expiry_ms ≤ w.current_ms
    → In (w.current_ms, t.id) (run_slot ts w).0
unfolding run_slot
run_slot-fires [] w t h e = elim h [ ]
run_slot-fires (x ∷ ts) w t (inl q) e = In-left _ _ _ (
    subst (λ y. In (w.current_ms, y.id) (run_timer x w).0) (sym q)
      (run_timer-fires x w (subst (λ y. y.expiry_ms ≤ w.current_ms) q e)))
run_slot-fires (x ∷ ts) w t (inr h) e =
    let k = run_timer-Keeps x w in
    In-right _ (run_timer x w).0 _ (
      subst (λ m. In (m, t.id) (run_slot ts (run_timer x w).1).0) k.same_time
        (run_slot-fires ts (run_timer x w).1 t h (omega (arith, e, k.same_time))))

insert_all-Keeps : (ts : List Timer) (w : Wheel) → Keeps w (insert_all ts w)
unfolding insert_all
insert_all-Keeps [] w = record { same_time = refl; same_ticks = refl; stays = λ u s h. h }
insert_all-Keeps (t ∷ ts) w =
    Keeps-trans (insert-Keeps t w) (insert_all-Keeps ts (timer_insert t w))

-- What a cascade from a level on leaves: the time, the lowest level, and ticks no more than one higher,
-- those of the levels below as they were.
pub record Cascaded (level : ℕ) (w w' : Wheel) : Type 0 where
  pub same_time : w'.current_ms ≡ w.current_ms
  pub ticks_below : (l : ℕ) → l < level → w'.wheel_ticks l ≡ w.wheel_ticks l
  pub ticks_near : (l : ℕ) → w'.wheel_ticks l ≤ w.wheel_ticks l + 1
  pub stays : (t : Timer) (s : ℕ) → In t (w.slots 0 s) → In t (w'.slots 0 s)

level-Cascaded :
    (level : ℕ) (w : Wheel)
    → 0 < level
    → w.wheel_ticks level < 256
    → Cascaded level w (cascade_level level (w.wheel_ticks level) w)
unfolding cascade_level
level-Cascaded level w pos in_range =
    let parent = w.wheel_ticks level in
    let w0 = record w {
      slots = set_slot w.slots level parent [];
      wheel_ticks = set_tick w.wheel_ticks level (add32 parent 1);
    } in
    let k = insert_all-Keeps (w.slots level parent) w0 in
    record {
      same_time = k.same_time;
      ticks_below = λ l h. ap (λ f. f l) k.same_ticks ∙ ground (arith, h);
      ticks_near = λ l.
          let here : (l == level) ≡ true → w.wheel_ticks l ≡ parent =
            λ e. (let same : l ≡ level = ground (arith, e) in ap w.wheel_ticks same) in
          rw k.same_ticks (ground (arith, here, in_range));
      stays = λ t s h.
          k.stays t s (let above : (0 == level) ≡ false = ground (arith, pos) in rw above h);
    }

pub lt_or_ge : (a b : ℕ) → (a < b) ⊎ (b ≤ a)
lt_or_ge a b = ground arith

level_ticks :
    (level : ℕ) (w : Wheel) (l : ℕ)
    → level < l
    → (cascade_level level (w.wheel_ticks level) w).wheel_ticks l ≡ w.wheel_ticks l
unfolding cascade_level
level_ticks level w l h =
    ap (λ f. f l) (insert_all-Keeps (w.slots level (w.wheel_ticks level)) _).same_ticks
    ∙ ground (arith, h)

pub cascade-Cascaded :
    (n level : ℕ) (w : Wheel)
    → 0 < level
    → ((l : ℕ) → level ≤ l → w.wheel_ticks l < 256)
    → (w' : Wheel) × (cascade n level w ≡ some w') × Cascaded level w w'
unfolding cascade
cascade-Cascaded zero level w pos h = (
  w,
  refl,
  record {
    same_time = refl;
    ticks_below = λ l k. refl;
    ticks_near = λ l. omega arith;
    stays = λ t s k. k;
  },
)
cascade-Cascaded (suc n) level w pos h =
    let parent = w.wheel_ticks level in
    let one = level-Cascaded level w pos (h level (omega arith)) in
    let w1 = cascade_level level parent w in
    let in_range : leb timer_slots parent ≡ false = ground (arith, h level (omega arith)) in
    elim (Bool-cases (add32 parent 1 % timer_slots == 0)) [
      | inl wraps ↦
          let (w2, e, c) = cascade-Cascaded n (suc level) w1 (omega arith) (λ l k.
            omega (arith, level_ticks level w l (omega (arith, k)), h l (omega (arith, k)))) in
          (
            w2,
            rw (in_range, wraps) e,
            record {
              same_time = c.same_time ∙ one.same_time;
              ticks_below = λ l k. c.ticks_below l (omega (arith, k)) ∙ one.ticks_below l k;
              ticks_near = λ l. elim (lt_or_ge level l) [
                | inl k ↦ omega (arith, c.ticks_near l, level_ticks level w l k)
                | inr k ↦ omega (arith, c.ticks_below l (omega (arith, k)), one.ticks_near l)
              ];
              stays = λ t s k. c.stays t s (one.stays t s k);
            },
          )
      | inr stops ↦ (w1, rw (in_range, stops) refl, one)
    ]
