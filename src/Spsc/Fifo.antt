-- ===== src/Spsc/Fifo.antt =====
-- The ring of include/ringbuf.h as a bounded queue whose writes are all or nothing.
use robov.Prelude.{
  ℕ, zero, suc, ◌+◌, ◌-◌, ◌*◌, ◌%◌, ◌^◌, ◌≤◌, ◌<◌, ◌≡◌, refl, sym, ◌∙◌, ap, ap₂, List, [], ◌∷◌,
  ◌++◌, arith, length, take, drop, ltb, leb, ◌==◌, if◌then◌else◌, if_true, if_false, true, false,
  Bool-cases, inl, inr, take_all, take_short, drop_short, bit_and, add64, sub64, length-drop,
}
use mathlib.Core.Path.{subst}
use robov.Prelude.Bits.{and_mask}
use robov.Prelude.Index.{mod-mod_factor}
use robov.Ring.{store, fetch}
use robov.Ring.Store.{length-store}
use robov.Ring.Inv.{window, length-window}
use robov.Ring.Round
use robov.Spsc.{Spsc, room, used, copy_in, copy_out, offer, poll}

-- The size is a power of two, the storage has that size, and at most that many bytes are held.
pub record IsSound (r : Spsc) : Type 0 where
  pub bits : ℕ
  pub cofactor : ℕ
  pub size_pow : r.size ≡ 2 ^ bits
  pub divides : r.size * cofactor ≡ 2 ^ 64
  pub size_pos : 0 < r.size
  pub size_in : r.size < 2 ^ 64
  pub mask_good : r.mask ≡ r.size - 1
  pub storage : length r.buf ≡ r.size
  pub head_in : r.head < 2 ^ 64
  pub tail_in : r.tail < 2 ^ 64
  pub fits : used r ≤ r.size

-- The bytes held, the oldest first.
pub held : Spsc → List ℕ
held r = window r.buf r.size r.tail (used r)

pub length-held : (r : Spsc) → length (held r) ≡ used r
unfolding held
length-held r = length-window r.buf r.size r.tail (used r)

pub held_none : (r : Spsc) → used r ≡ 0 → held r ≡ []
unfolding held window
held_none r e = ap (window r.buf r.size r.tail) e

-- The `memcpy` calls are those of the other ring.
copy_in-eq :
    (buf : List ℕ) (off k : ℕ) (bytes : List ℕ)
    → copy_in buf off (if ltb (length bytes) k then length bytes else k) bytes
      ≡ store buf off k bytes (length bytes)
unfolding copy_in store
copy_in-eq buf off k bytes =
    ground
      (arith, sym (ap (λ n. take n (drop k bytes)) (length-drop k bytes)) ∙ take_all (drop k bytes))

copy_out-eq :
    (buf : List ℕ) (off k len : ℕ)
    → copy_out buf off (if ltb len k then len else k) len ≡ fetch buf off k len
unfolding copy_out fetch
copy_out-eq buf off k len = ground arith

-- A queue of at most `cap` bytes that takes all bytes of a write or none.
unfoldable pub queue_offer : ℕ → List ℕ → List ℕ → ℕ × List ℕ
queue_offer cap q bytes =
    if leb (length bytes) (cap - length q) then (length bytes, q ++ bytes) else (0, q)

unfoldable pub queue_poll : List ℕ → ℕ → List ℕ × List ℕ
queue_poll q n = (take n q, drop n q)

-- A read of more bytes than there are is one of those there are.
queue_poll-min :
    (q : List ℕ) (n len : ℕ)
    → len ≡ (if ltb (length q) n then length q else n)
    → queue_poll q len ≡ queue_poll q n
unfolding queue_poll
queue_poll-min q n len e = elim (Bool-cases (ltb (length q) n)) [
  | inl f ↦
      let whole : len ≡ length q = e ∙ if_true _ _ f in
      let le : length q ≤ n = ground (arith, f) in
      ap₂ (λ a b. (a, b)) (take_short len q (omega (arith, whole)) ∙ sym (take_short n q le))
        (drop_short len q (omega (arith, whole)) ∙ sym (drop_short n q le))
  | inr f ↦ ap (λ k. (take k q, drop k q)) (e ∙ if_false _ _ f)
]

module _ {r : Spsc} (v : IsSound r) where
  masked : (x : ℕ) → bit_and x r.mask ≡ x % r.size
  masked x = ground (arith, and_mask v.bits x, v.mask_good, v.size_pow)

  wrapped : (x : ℕ) → x % 2 ^ 64 % r.size ≡ x % r.size
  wrapped x = ap (λ m. x % m % r.size) (sym v.divides) ∙ mod-mod_factor x r.size v.cofactor

  abbrev at : ℕ
  at = r.head % r.size

  at_in : at < r.size
  at_in = omega (arith, v.size_pos)

  abbrev from : ℕ
  from = r.tail % r.size

  from_in : from < r.size
  from_in = omega (arith, v.size_pos)

  ends : at ≡ (r.tail + used r) % r.size
  ends = ap (λ x. x % r.size) same ∙ wrapped (r.tail + used r)
    where
      same : r.head ≡ (r.tail + used r) % 2 ^ 64
      same = unfold used in omega (arith, v.head_in, v.tail_in)

  room-add-used : room r + used r ≡ r.size
  unfolding room
  room-add-used = unfold used in omega (arith, v.fits, v.size_in)

  -- The ring after a write that fits.
  stored : List ℕ → Spsc
  stored bytes = record r {
    buf = store r.buf at (r.size - at) bytes (length bytes);
    head = (r.head + length bytes) % 2 ^ 64;
    bytes_written = add64 r.bytes_written (length bytes);
  }

  offer-fits :
      (bytes : List ℕ) → length bytes ≤ room r → offer r bytes ≡ (length bytes, stored bytes)
  unfolding offer stored
  offer-fits bytes h =
      let here : bit_and r.head r.mask ≡ at = masked r.head in
      let rest : sub64 r.size (bit_and r.head r.mask) ≡ r.size - at =
        omega (arith, here, at_in, v.size_in) in
      let open_room : ltb (room r) (length bytes) ≡ false = ground (arith, h) in
      if_false _ _ open_room
      ∙ ap
          (λ b. (
            length bytes,
            record r {
              buf = b;
              head = (r.head + length bytes) % 2 ^ 64;
              bytes_written = add64 r.bytes_written (length bytes);
            },
          ))
          (copy_in-eq r.buf (bit_and r.head r.mask) (sub64 r.size (bit_and r.head r.mask)) bytes
            ∙ ap₂ (λ o k. store r.buf o k bytes (length bytes)) here rest)

  offer-full :
      (bytes : List ℕ)
      → room r < length bytes
      → offer r bytes ≡ (0, record r { drops = add64 r.drops (length bytes) })
  unfolding offer
  offer-full bytes h =
      let full : ltb (room r) (length bytes) ≡ true = ground (arith, h) in if_true _ _ full

  -- The ring after a read of `n` bytes.
  passed : ℕ → Spsc
  passed n = record r { tail = (r.tail + n) % 2 ^ 64; bytes_read = add64 r.bytes_read n }

  poll-some :
      (n : ℕ)
      → 0 < used r
      → let len = if ltb (used r) n then used r else n in
        poll r n ≡ (fetch r.buf from (r.size - from) len, passed len)
  unfolding poll passed
  poll-some n h =
      let here : bit_and r.tail r.mask ≡ from = masked r.tail in
      let rest : sub64 r.size (bit_and r.tail r.mask) ≡ r.size - from =
        omega (arith, here, from_in, v.size_in) in
      let some_held : (used r == 0) ≡ false = ground (arith, h) in
      let len : ℕ = if ltb (used r) n then used r else n in
      if_false _ _ some_held
      ∙ ap
          (λ out.
            (out, record r { tail = (r.tail + len) % 2 ^ 64; bytes_read = add64 r.bytes_read len }))
          (copy_out-eq r.buf (bit_and r.tail r.mask) (sub64 r.size (bit_and r.tail r.mask)) len
            ∙ ap₂ (λ o k. fetch r.buf o k len) here rest)

  poll_empty : (n : ℕ) → used r ≡ 0 → poll r n ≡ ([], r)
  unfolding poll
  poll_empty n h = let none_held : (used r == 0) ≡ true = ground (arith, h) in if_true _ _ none_held

  -- How the counters move.
  stored-used :
      (bytes : List ℕ) → length bytes ≤ room r → used (stored bytes) ≡ used r + length bytes
  unfolding used stored
  stored-used bytes h = omega (arith, h, room-add-used, v.head_in, v.tail_in, v.size_in)

  passed-used : (n : ℕ) → n ≤ used r → used (passed n) ≡ used r - n
  unfolding used passed
  passed-used n h = omega (arith, h, v.head_in, v.tail_in)

  stored-IsSound : (bytes : List ℕ) → length bytes ≤ room r → IsSound (stored bytes)
  stored-IsSound bytes h =
      unfold stored in
      record {
        bits = v.bits;
        cofactor = v.cofactor;
        size_pow = v.size_pow;
        divides = v.divides;
        size_pos = v.size_pos;
        size_in = v.size_in;
        mask_good = v.mask_good;
        storage =
            length-store r.buf r.size at v.storage at_in bytes (length bytes)
              (omega (arith, h, room-add-used)) (omega arith);
        head_in = omega arith;
        tail_in = v.tail_in;
        fits = omega (arith, h, stored-used bytes h, room-add-used);
      }

  passed-IsSound : (n : ℕ) → n ≤ used r → IsSound (passed n)
  passed-IsSound n h =
      unfold passed in
      record {
        bits = v.bits;
        cofactor = v.cofactor;
        size_pow = v.size_pow;
        divides = v.divides;
        size_pos = v.size_pos;
        size_in = v.size_in;
        mask_good = v.mask_good;
        storage = v.storage;
        head_in = v.head_in;
        tail_in = omega arith;
        fits = omega (arith, h, passed-used n h, v.fits);
      }

  held-stored : (bytes : List ℕ) → length bytes ≤ room r → held (stored bytes) ≡ held r ++ bytes
  unfolding held stored
  held-stored bytes h =
      ap (window (stored bytes).buf r.size r.tail) (stored-used bytes h)
      ∙ Round.window-store r.buf r.size r.tail (used r) at v.storage v.size_pos v.fits ends bytes
          (length bytes) (omega (arith, h, room-add-used)) (omega arith)
      ∙ ap (λ t. window r.buf r.size r.tail (used r) ++ t) (take_all bytes)

  held-passed : (n : ℕ) → n ≤ used r → held (passed n) ≡ drop n (held r)
  unfolding held passed
  held-passed n h =
      ap (window r.buf r.size ((r.tail + n) % 2 ^ 64)) (passed-used n h)
      ∙ Round.window-drop r.buf r.size r.tail (used r) at v.storage v.size_pos v.fits ends n
          ((r.tail + n) % 2 ^ 64) h (wrapped (r.tail + n))

  -- `rc_ringbuf_write` keeps the ring sound and its size, and is the write of the queue.
  pub offer_lem :
      (bytes : List ℕ)
      → IsSound (offer r bytes).1
        × ((offer r bytes).1.size ≡ r.size)
        × (((offer r bytes).0, held (offer r bytes).1) ≡ queue_offer r.size (held r) bytes)
  unfolding queue_offer used held
  offer_lem bytes = elim (Bool-cases (ltb (room r) (length bytes))) [
    | inl e ↦
        let full = offer-full bytes (ground (arith, e)) in
        let over : leb (length bytes) (r.size - length (held r)) ≡ false =
          ground (arith, e, length-held r, room-add-used) in
        (
          subst (λ (o : ℕ × Spsc). IsSound o.1) (sym full) refused-IsSound,
          ap (λ (o : ℕ × Spsc). o.1.size) full,
          ap (λ (o : ℕ × Spsc). (o.0, held o.1)) full ∙ sym (if_false _ _ over),
        )
    | inr e ↦
        let fit : length bytes ≤ room r = ground (arith, e) in
        let within : leb (length bytes) (r.size - length (held r)) ≡ true =
          ground (arith, fit, length-held r, room-add-used) in
        (
          subst (λ (o : ℕ × Spsc). IsSound o.1) (sym (offer-fits bytes fit))
              (stored-IsSound bytes fit),
          ap (λ (o : ℕ × Spsc). o.1.size) (offer-fits bytes fit) ∙ stored-size,
          ap (λ (o : ℕ × Spsc). (o.0, held o.1)) (offer-fits bytes fit)
              ∙ ap (λ q. (length bytes, q)) (held-stored bytes fit)
              ∙ sym (if_true _ _ within),
        )
  ]
    where
      stored-size : (stored bytes).size ≡ r.size
      stored-size = unfold stored in refl

      refused-IsSound : IsSound (record r { drops = add64 r.drops (length bytes) })
      refused-IsSound = record {
        bits = v.bits;
        cofactor = v.cofactor;
        size_pow = v.size_pow;
        divides = v.divides;
        size_pos = v.size_pos;
        size_in = v.size_in;
        mask_good = v.mask_good;
        storage = v.storage;
        head_in = v.head_in;
        tail_in = v.tail_in;
        fits = v.fits;
      }

  -- `rc_ringbuf_read` keeps the ring sound and its size, and is the read of the queue.
  pub poll_lem :
      (n : ℕ)
      → IsSound (poll r n).1
        × ((poll r n).1.size ≡ r.size)
        × (((poll r n).0, held (poll r n).1) ≡ queue_poll (held r) n)
  unfolding queue_poll held
  poll_lem n = elim (Bool-cases (used r == 0)) [
    | inl e ↦
        let none_held : used r ≡ 0 = ground (arith, e) in
        let empty = poll_empty n none_held in
        (
          subst (λ (o : List ℕ × Spsc). IsSound o.1) (sym empty) v,
          ap (λ (o : List ℕ × Spsc). o.1.size) empty,
          ap (λ (o : List ℕ × Spsc). (o.0, held o.1)) empty
              ∙ nothing (held r) n (length-held r ∙ none_held),
        )
    | inr e ↦
        let len : ℕ = if ltb (used r) n then used r else n in
        let le : len ≤ used r = ground arith in
        let some_held = poll-some n (ground (arith, e)) in
        (
          subst (λ (o : List ℕ × Spsc). IsSound o.1) (sym some_held) (passed-IsSound len le),
          ap (λ (o : List ℕ × Spsc). o.1.size) some_held ∙ passed-size len,
          ap (λ (o : List ℕ × Spsc). (o.0, held o.1)) some_held
              ∙ ap₂ (λ a b. (a, b))
                  (Round.fetch-eq-take r.buf r.size r.tail (used r) at v.storage v.size_pos v.fits
                    ends len le)
                  (held-passed len le)
              ∙ queue_poll-min (held r) n len
                  (ap (λ k. if ltb k n then k else n) (sym (length-held r))),
        )
  ]
    where
      passed-size : (k : ℕ) → (passed k).size ≡ r.size
      passed-size k = unfold passed in refl

      nothing :
          (q : List ℕ) (k : ℕ)
          → length q ≡ 0
          → ◌≡◌ {A = List ℕ × List ℕ} ([], q) (take k q, drop k q)
      nothing [] zero e = refl
      nothing [] (suc k) e = refl
      nothing (x ∷ q) k e = absurd (omega (arith, e))
