-- ===== src/Proto/Bytes.antt =====
-- `htons`, `htonl` and `htonll` followed by `memcpy`, and the way back: the bytes of a number, the
-- highest first.
use robov.Prelude.{
  ℕ, zero, suc, ◌+◌, ◌*◌, ◌/◌, ◌%◌, ◌^◌, ◌<◌, ◌≡◌, List, [], ◌∷◌, Bool, true, ◌&&◌, arith, ltb,
  get_or,
}

-- The `k` low bytes of `x`, the highest first.
unfoldable pub be_bytes : ℕ → ℕ → List ℕ
be_bytes zero x = []
be_bytes (suc k) x = (x / 256 ^ k % 256) ∷ be_bytes k x

-- The number that the `k` bytes of `src` from `off` on stand for, after `acc`.
unfoldable pub be_from : ℕ → List ℕ → ℕ → ℕ → ℕ
be_from zero src off acc = acc
be_from (suc k) src off acc = be_from k src (suc off) (acc * 256 + get_or src off 0)

unfoldable pub be_at : ℕ → List ℕ → ℕ → ℕ
unfolding be_from
be_at k src off = be_from k src off 0

-- What is read at each place of `src` is a byte.
abbrev pub IsBytes : List ℕ → Type 0
IsBytes src = (i : ℕ) → get_or src i 0 < 256

-- The test of `IsBytes` on a given list.
unfoldable pub all_bytes : List ℕ → Bool
all_bytes [] = true
all_bytes (x ∷ xs) = ltb x 256 && all_bytes xs

pub all_bytes-IsBytes : (xs : List ℕ) → all_bytes xs ≡ true → IsBytes xs
unfolding all_bytes
all_bytes-IsBytes [] h i = omega arith
all_bytes-IsBytes (x ∷ xs) h zero = ground (arith, h)
all_bytes-IsBytes (x ∷ xs) h (suc i) = all_bytes-IsBytes xs (ground (arith, h)) i
