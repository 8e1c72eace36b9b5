-- ===== src/Ring/Life.antt =====
-- A ring from its initialisation on, under any sequence of writes and reads.
use robov.Prelude.{
  ℕ, ◌-◌, ◌*◌, ◌^◌, ◌≤◌, ◌<◌, ◌≡◌, refl, sym, ◌∙◌, ap, true, List, [], ◌∷◌, ◌++◌, arith, take,
  length-replicate, append_assoc, append-nil, take-append-drop, if◌then◌else◌, ◌==◌,
}
use native.Mathlib.Nat.{pow-le-pow_right}
use robov.Ring.{Ring, ok, init, write, read, available, next_pow2}
use robov.Ring.Inv.{IsValid, contents, window}
use robov.Ring.PowTwo.{next_pow2-IsLeast, pow_add}
use robov.Ring.Fifo.{
  queue_write, queue_read, write-IsValid, read-IsValid, write_refines, read_refines,
}

-- What `rc_ringbuf_init` sets up for a size up to 2 ^ 31.
pub record IsFresh (size : ℕ) (r : Ring) : Type 0 where
  pub sound : IsValid r
  pub empty : contents r ≡ []
  pub enough : size ≤ r.size
  pub least : r.size < 2 * size

requested : ℕ → ℕ
requested size = if size == 0 then 4096 else size

-- Where the allocation succeeds, `rc_ringbuf_init` makes a valid empty ring of the least power of two
-- that is not below the requested size (4096 for a size of 0).
pub init-IsFresh :
    (rb : Ring) (size : ℕ)
    → size ≤ 2 ^ 31
    → ((init true rb size).0 ≡ ok)
      × IsFresh (if size == 0 then 4096 else size) (init true rb size).1
unfolding init requested contents window available
init-IsFresh rb size h =
    let (k, small, e, above, below) =
      next_pow2-IsLeast (requested size) (ground arith) (ground arith) in
    (
      refl,
      record {
        sound = record {
          bits = k;
          cofactor = 2 ^ (32 - k);
          size_pow = e;
          divides =
              ap (λ (x : ℕ). x * 2 ^ (32 - k)) e
              ∙ sym (pow_add k (32 - k))
              ∙ ap (λ (n : ℕ). 2 ^ n) {y = 32} (omega arith);
          size_pos = omega (arith, e, above);
          size_in = omega (arith, e, pow-le-pow_right {n = 2} (omega arith) small);
          mask_good = omega (arith, e, above, pow-le-pow_right {n = 2} (omega arith) small);
          storage = length-replicate (next_pow2 (requested size)) 0;
          head_in = omega arith;
          tail_in = omega arith;
          fits = omega arith;
        };
        empty = refl;
        enough = rw e above;
        least = rw e below;
      },
    )

pub data Op : Type 0 where
  put : List ℕ → Op
  get : ℕ → Op

-- The calls in order: the bytes that reads gave, the bytes that writes took, the ring at the end.
pub run : Ring → List Op → List ℕ × List ℕ × Ring
run r [] = ([], [], r)
run r (put bytes ∷ ops) =
    let (n, r') = write r bytes in
    let (out, taken, r'') = run r' ops in (out, take n bytes ++ taken, r'')
run r (get n ∷ ops) =
    let (bytes, r') = read r n in let (out, taken, r'') = run r' ops in (bytes ++ out, taken, r'')

write_takes :
    {r : Ring} (v : IsValid r) (bytes : List ℕ)
    → contents (write r bytes).1 ≡ contents r ++ take (write r bytes).0 bytes
unfolding queue_write
write_takes v bytes = ground (arith, write_refines v bytes)

read_gives : {r : Ring} (v : IsValid r) (n : ℕ) → (read r n).0 ++ contents (read r n).1 ≡ contents r
unfolding queue_read
read_gives {r} v n = ground (arith, read_refines v n, take-append-drop n (contents r))

pub run-IsValid : (r : Ring) (ops : List Op) → IsValid r → IsValid (run r ops).2
unfolding run
run-IsValid r [] v = v
run-IsValid r (put bytes ∷ ops) v = run-IsValid (write r bytes).1 ops (write-IsValid v bytes)
run-IsValid r (get n ∷ ops) v = run-IsValid (read r n).1 ops (read-IsValid v n)

-- First in, first out: from a valid ring, whatever the calls of `rc_ringbuf_write` and
-- `rc_ringbuf_read`, the bytes read and then the bytes still held are the bytes held at first and
-- then the bytes taken. No byte is lost, repeated or reordered.
pub run_fifo :
    (r : Ring) (ops : List Op)
    → IsValid r
    → let (out, taken, r') = run r ops in out ++ contents r' ≡ contents r ++ taken
unfolding run
run_fifo r [] v = sym (append-nil (contents r))
run_fifo r (put bytes ∷ ops) v =
    run_fifo (write r bytes).1 ops (write-IsValid v bytes)
    ∙ ap (λ q. q ++ (run (write r bytes).1 ops).1) (write_takes v bytes)
    ∙ append_assoc (contents r) (take (write r bytes).0 bytes) (run (write r bytes).1 ops).1
run_fifo r (get n ∷ ops) v =
    append_assoc (read r n).0 (run (read r n).1 ops).0 (contents (run (read r n).1 ops).2)
    ∙ ap (λ q. (read r n).0 ++ q) (run_fifo (read r n).1 ops (read-IsValid v n))
    ∙ sym (append_assoc (read r n).0 (contents (read r n).1) (run (read r n).1 ops).1)
    ∙ ap (λ q. q ++ (run (read r n).1 ops).1) (read_gives v n)
