-- ===== src/Ring/Examples.antt =====
-- The ring at small inputs: `head` and `tail` about to wrap.
use robov.Prelude.{◌≡◌, refl, [], ◌∷◌, ◌++◌, arith}
use robov.Ring.{Ring, available, blit, store, write}
use robov.Ring.Inv.{IsValid, contents}
use robov.Ring.Life.{put, get, run, run_fifo}

-- One byte, 12, in a ring of four.
abbrev ring : Ring
ring = record {
  buf = 10 ∷ 11 ∷ 12 ∷ 13 ∷ [];
  size = 4;
  mask = 3;
  head = 4294967295;
  tail = 4294967294;
}

ring-IsValid : IsValid ring
unfolding available
ring-IsValid = record {
  bits = 2;
  cofactor = 1073741824;
  size_pow = refl;
  divides = refl;
  size_pos = omega arith;
  size_in = omega arith;
  mask_good = refl;
  storage = refl;
  head_in = omega arith;
  tail_in = omega arith;
  fits = omega arith;
}

write_over :
    write ring (1 ∷ 2 ∷ 3 ∷ 4 ∷ [])
    ≡ (3, record { buf = 2 ∷ 3 ∷ 12 ∷ 1 ∷ []; size = 4; mask = 3; head = 2; tail = 4294967294 })
unfolding write store blit
write_over = refl

run_fifo_example :
    let (out, taken, r') = run ring (put (1 ∷ 2 ∷ []) ∷ get 2 ∷ []) in
    out ++ contents r' ≡ contents ring ++ taken
run_fifo_example = run_fifo ring (put (1 ∷ 2 ∷ []) ∷ get 2 ∷ []) ring-IsValid
