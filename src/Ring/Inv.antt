-- ===== src/Ring/Inv.antt =====
-- The representation invariant of `rc_ringbuf_t`, and the bytes that a ring holds.
use robov.Prelude.{
  ℕ, zero, suc, ◌+◌, ◌-◌, ◌*◌, ◌%◌, ◌^◌, ◌≤◌, ◌<◌, ◌≡◌, refl, sym, ap, ◌∙◌, List, [], ◌∷◌, arith,
  length, get_or, bit_and,
}
use robov.Prelude.Bits.{and_mask}
use robov.Prelude.Index.{mod-mod_factor}
use robov.Ring.{Ring, available, free_space}

-- The size is a power of two below 2 ^ 32, the storage has that size, and at most that many bytes
-- lie between `tail` and `head`.
pub record IsValid (r : Ring) : Type 0 where
  pub bits : ℕ
  pub cofactor : ℕ
  pub size_pow : r.size ≡ 2 ^ bits
  pub divides : r.size * cofactor ≡ 2 ^ 32
  pub size_pos : 0 < r.size
  pub size_in : r.size < 2 ^ 32
  pub mask_good : r.mask ≡ r.size - 1
  pub storage : length r.buf ≡ r.size
  pub head_in : r.head < 2 ^ 32
  pub tail_in : r.tail < 2 ^ 32
  pub fits : available r ≤ r.size

-- The `n` bytes from position `t` on, going round at `size`.
unfoldable pub window : List ℕ → ℕ → ℕ → ℕ → List ℕ
window buf size t zero = []
window buf size t (suc n) = get_or buf (t % size) 0 ∷ window buf size (suc t) n

-- The bytes that the ring holds, the oldest first.
unfoldable pub contents : Ring → List ℕ
contents r = window r.buf r.size r.tail (available r)

pub length-window : (buf : List ℕ) (size t n : ℕ) → length (window buf size t n) ≡ n
unfolding window
length-window buf size t zero = refl
length-window buf size t (suc n) = ap suc (length-window buf size (suc t) n)

pub get_or-window :
    (buf : List ℕ) (size t n i : ℕ)
    → i < n
    → get_or (window buf size t n) i 0 ≡ get_or buf ((t + i) % size) 0
unfolding window
get_or-window buf size t zero i h = absurd (omega arith)
get_or-window buf size t (suc n) zero h = ap (λ j. get_or buf (j % size) 0) (omega arith)
get_or-window buf size t (suc n) (suc i) h =
    get_or-window buf size (suc t) n i (omega arith)
    ∙ ap (λ j. get_or buf (j % size) 0) (omega arith)

pub length-contents : (r : Ring) → length (contents r) ≡ available r
unfolding contents
length-contents r = length-window r.buf r.size r.tail (available r)

module _ {r : Ring} (v : IsValid r) where
  -- The mask is the remainder by the size.
  pub masked : (x : ℕ) → bit_and x r.mask ≡ x % r.size
  masked x = ground (arith, and_mask v.bits x, v.mask_good, v.size_pow)

  -- Wrapping at 2 ^ 32 does not move a position.
  pub wrapped : (x : ℕ) → x % 2 ^ 32 % r.size ≡ x % r.size
  wrapped x = ap (λ m. x % m % r.size) (sym v.divides) ∙ mod-mod_factor x r.size v.cofactor

  -- `head` stands `available` bytes after `tail`.
  pub head-mod : r.head % r.size ≡ (r.tail + available r) % r.size
  head-mod = ap (λ x. x % r.size) same ∙ wrapped (r.tail + available r)
    where
      same : r.head ≡ (r.tail + available r) % 2 ^ 32
      same = unfold available in omega (arith, v.head_in, v.tail_in)

  -- What is free and what is held make up the size.
  pub free_space-add-available : free_space r + available r ≡ r.size
  unfolding free_space
  free_space-add-available = unfold available in omega (arith, v.fits, v.size_in)
