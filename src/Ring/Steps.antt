-- ===== src/Ring/Steps.antt =====
-- One write and one read of a valid ring, on the bytes that it holds.
use robov.Prelude.{
  ℕ, ◌+◌, ◌-◌, ◌%◌, ◌^◌, ◌≤◌, ◌<◌, ◌≡◌, List, ◌++◌, arith, length, take, drop, ltb, if◌then◌else◌,
}
use robov.Ring.{Ring, available, free_space, store, fetch, write, read}
use robov.Ring.Round
use robov.Ring.Inv.{IsValid, contents, window, masked, wrapped, head-mod, free_space-add-available}

module _ {r : Ring} (v : IsValid r) where
  abbrev pub at_head : ℕ
  at_head = r.head % r.size

  abbrev pub at_tail : ℕ
  at_tail = r.tail % r.size

  pub head_inside : at_head < r.size
  head_inside = omega (arith, v.size_pos)

  pub tail_inside : at_tail < r.size
  tail_inside = omega (arith, v.size_pos)

  -- How many of `n` bytes a write takes.
  abbrev pub accepted : ℕ → ℕ
  accepted n = if ltb (free_space r) n then free_space r else n

  -- `rc_ringbuf_write` with its masks and wraps read as remainders.
  pub write_as_store :
      (bytes : List ℕ)
      → write r bytes ≡ (
        accepted (length bytes),
        record r {
          buf = store r.buf at_head (r.size - at_head) bytes (accepted (length bytes));
          head = (r.head + accepted (length bytes)) % 2 ^ 32;
        },
      )
  unfolding write free_space
  write_as_store bytes =
      ground (arith, masked v r.head, head_inside, v.size_in, free_space-add-available v)

  pub read_as_fetch :
      (n : ℕ)
      → let len = if ltb (available r) n then available r else n in
        read r n
        ≡ (fetch r.buf at_tail (r.size - at_tail) len, record r { tail = (r.tail + len) % 2 ^ 32 })
  unfolding read available
  read_as_fetch n = ground (arith, masked v r.tail, tail_inside, v.size_in, v.fits)

  -- Storing `n` bytes at the head extends what the ring holds by them.
  pub window-store :
      (bytes : List ℕ) (n : ℕ)
      → n ≤ free_space r
      → n ≤ length bytes
      → window (store r.buf at_head (r.size - at_head) bytes n) r.size r.tail (available r + n)
        ≡ contents r ++ take n bytes
  unfolding contents
  window-store bytes n h k =
      Round.window-store r.buf r.size r.tail (available r) at_head v.storage v.size_pos v.fits
        (head-mod v) bytes n (omega (arith, h, free_space-add-available v)) k

  -- Fetching `n` bytes at the tail gives the first `n` bytes that the ring holds.
  pub fetch-eq-take :
      (n : ℕ) → n ≤ available r → fetch r.buf at_tail (r.size - at_tail) n ≡ take n (contents r)
  unfolding contents
  fetch-eq-take n h =
      Round.fetch-eq-take r.buf r.size r.tail (available r) at_head v.storage v.size_pos v.fits
        (head-mod v) n h

  -- Moving the tail forward drops the bytes that it passes.
  pub window-drop :
      (n : ℕ)
      → n ≤ available r
      → window r.buf r.size ((r.tail + n) % 2 ^ 32) (available r - n) ≡ drop n (contents r)
  unfolding contents
  window-drop n h =
      Round.window-drop r.buf r.size r.tail (available r) at_head v.storage v.size_pos v.fits
        (head-mod v) n ((r.tail + n) % 2 ^ 32) h (wrapped v (r.tail + n))

  pub write-available :
      (buf : List ℕ) (n : ℕ)
      → n ≤ free_space r
      → available (record r { buf = buf; head = (r.head + n) % 2 ^ 32 }) ≡ available r + n
  unfolding available
  write-available buf n h =
      omega (arith, free_space-add-available v, v.head_in, v.tail_in, v.size_in)

  pub read-available :
      (n : ℕ)
      → n ≤ available r
      → available (record r { tail = (r.tail + n) % 2 ^ 32 }) ≡ available r - n
  unfolding available
  read-available n h = omega (arith, v.head_in, v.tail_in, v.size_in)
