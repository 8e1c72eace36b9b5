-- ===== src/Ring/Fifo.antt =====
-- A valid ring behaves as the bounded queue of the bytes that it holds, in any sequence of calls.
use robov.Prelude.{
  ℕ, ◌+◌, ◌-◌, ◌%◌, ◌^◌, ◌≤◌, ◌≡◌, ◌∙◌, ap, List, ◌++◌, arith, length, take_short, drop_short, take,
  drop, ltb, if◌then◌else◌, min,
}
use robov.Ring.{Ring, available, free_space, write, read}
use robov.Ring.Store.{length-store}
use robov.Ring.Inv.{IsValid, contents, window, length-contents, free_space-add-available}
use robov.Ring.Steps.{
  at_head, accepted, head_inside, write_as_store, read_as_fetch, window-store, fetch-eq-take,
  window-drop, write-available, read-available,
}

-- A queue of at most `cap` bytes: a write takes what fits, a read gives what there is.
unfoldable pub queue_write : ℕ → List ℕ → List ℕ → ℕ × List ℕ
queue_write cap q bytes = let n = min (length bytes) (cap - length q) in (n, q ++ take n bytes)

unfoldable pub queue_read : List ℕ → ℕ → List ℕ × List ℕ
queue_read q n = (take n q, drop n q)

module _ {r : Ring} (v : IsValid r) where
  accepted-le : (n : ℕ) → accepted v n ≤ free_space r
  accepted-le n = ground arith

  contents-write :
      (bytes : List ℕ)
      → contents (write r bytes).1 ≡ contents r ++ take (accepted v (length bytes)) bytes
  unfolding contents
  contents-write bytes =
      ap (λ o. contents o.1) (write_as_store v bytes)
      ∙ ap (window _ r.size r.tail) (write-available v _ (accepted v (length bytes)) (ground arith))
      ∙ window-store v bytes (accepted v (length bytes)) (ground arith) (ground arith)

  contents-read :
      (n : ℕ)
      → let len = if ltb (available r) n then available r else n in
        contents (read r n).1 ≡ drop len (contents r)
  unfolding contents
  contents-read n =
      let len = if ltb (available r) n then available r else n in
      ap (λ o. contents o.1) (read_as_fetch v n)
      ∙ ap (window r.buf r.size ((r.tail + len) % 2 ^ 32)) (read-available v len (ground arith))
      ∙ window-drop v len (ground arith)

  -- `rc_ringbuf_write` keeps the invariant.
  pub write-IsValid : (bytes : List ℕ) → IsValid (write r bytes).1
  write-IsValid bytes = rw (write_as_store v bytes) (record {
    bits = v.bits;
    cofactor = v.cofactor;
    size_pow = v.size_pow;
    divides = v.divides;
    size_pos = v.size_pos;
    size_in = v.size_in;
    mask_good = v.mask_good;
    storage =
        length-store r.buf r.size (at_head v) v.storage (head_inside v) bytes
          (accepted v (length bytes)) (ground (arith, free_space-add-available v)) (ground arith);
    head_in = omega arith;
    tail_in = v.tail_in;
    fits = omega (
      arith,
      write-available v _ (accepted v (length bytes)) (ground arith),
      free_space-add-available v,
      accepted-le (length bytes),
    );
  })

  -- `rc_ringbuf_read` keeps the invariant.
  pub read-IsValid : (n : ℕ) → IsValid (read r n).1
  read-IsValid n = rw (read_as_fetch v n) (record {
    bits = v.bits;
    cofactor = v.cofactor;
    size_pow = v.size_pow;
    divides = v.divides;
    size_pos = v.size_pos;
    size_in = v.size_in;
    mask_good = v.mask_good;
    storage = v.storage;
    head_in = v.head_in;
    tail_in = omega arith;
    fits = omega (
      arith,
      read-available v (if ltb (available r) n then available r else n) (ground arith),
      v.fits,
    );
  })

  -- On a valid ring a write takes as many bytes as fit, returns their number, and appends exactly
  -- those.
  pub write_refines :
      (bytes : List ℕ)
      → let (n, r') = write r bytes in (n, contents r') ≡ queue_write r.size (contents r) bytes
  unfolding queue_write
  write_refines bytes = ground (
    arith,
    contents-write bytes,
    write_as_store v bytes,
    length-contents r,
    free_space-add-available v,
  )

  -- On a valid ring a read gives the oldest bytes, as many as asked for and there are, and leaves
  -- the rest.
  pub read_refines :
      (n : ℕ) → let (out, r') = read r n in (out, contents r') ≡ queue_read (contents r) n
  unfolding queue_read
  read_refines n = ground (
    arith,
    contents-read n,
    read_as_fetch v n,
    fetch-eq-take v (if ltb (available r) n then available r else n),
    length-contents r,
    take_short (available r) (contents r),
    take_short n (contents r),
    drop_short (available r) (contents r),
    drop_short n (contents r),
  )
