-- ===== src/Packet/Sum.antt =====
-- The CRC-32 of include/proto.h: what it depends on, its range, and its agreement with that of
-- src/core/rc_proto.c.
use robov.Prelude.{
  ℕ, zero, suc, ◌+◌, ◌/◌, ◌^◌, ◌<◌, ◌≡◌, ◌==◌, refl, sym, ap, ap₂, ◌∙◌, true, Bool-cases, inl, inr,
  if_true, if_false, if_elim, List, [], ◌∷◌, arith, get_or, bit_and, bit_xor,
}
use robov.Prelude.Bits.{xor-lt, xor-zero, xor_comm}
use robov.Proto.Crc.{
  CrcState, polynomial, crc_bit, crc_bits, table_from, crc_update, crc_loop, crc32,
}
use robov.Proto.Crc.Bitwise.{IsReady, init_table-eq}
use robov.Packet.{SumState, sum_bit, sum_bits, sum_table, sum_init, sum_update, sum_loop, sum32}

-- The static variables are consistent: either the table was never filled, or it is complete.
pub record IsFilled (s : SumState) : Type 0 where
  pub filled : s.initialized ≡ true → s.table ≡ sum_table 0 256

sum_init-table : (s : SumState) → IsFilled s → (sum_init s).table ≡ sum_table 0 256
unfolding sum_init
sum_init-table s r = elim (Bool-cases s.initialized) [
  | inl e ↦ ap SumState.table (if_true _ _ e) ∙ r.filled e
  | inr e ↦ ap SumState.table (if_false _ _ e)
]

-- The checksum, without the static variables.
pub checksum : List ℕ → ℕ
checksum bytes = bit_xor (sum_loop (sum_table 0 256) 0xFFFFFFFF bytes) 0xFFFFFFFF

pub sum32-eq-checksum :
    (s : SumState) (bytes : List ℕ) → IsFilled s → (sum32 s bytes).0 ≡ checksum bytes
unfolding sum32 checksum
sum32-eq-checksum s bytes r =
    ap (λ t. bit_xor (sum_loop t 0xFFFFFFFF bytes) 0xFFFFFFFF) (sum_init-table s r)

sum_bit-lt : (c : ℕ) → c < 2 ^ 32 → sum_bit c < 2 ^ 32
unfolding sum_bit
sum_bit-lt c h =
    if_elim (λ x. x < 2 ^ 32) (bit_and c 1 == 0) (λ e. omega (arith, h))
      (λ e. xor-lt 32 0xEDB88320 (c / 2) (omega arith) (omega (arith, h)))

sum_bits-lt : (n c : ℕ) → c < 2 ^ 32 → sum_bits n c < 2 ^ 32
unfolding sum_bits
sum_bits-lt zero c h = h
sum_bits-lt (suc n) c h = sum_bits-lt n (sum_bit c) (sum_bit-lt c h)

sum_table-lt : (n i j : ℕ) → i + n < 2 ^ 32 → get_or (sum_table i n) j 0 < 2 ^ 32
unfolding sum_table
sum_table-lt zero i j h = omega arith
sum_table-lt (suc n) i zero h = sum_bits-lt 8 i (omega (arith, h))
sum_table-lt (suc n) i (suc j) h = sum_table-lt n (suc i) j (omega (arith, h))

sum_loop-lt : (bytes : List ℕ) (c : ℕ) → c < 2 ^ 32 → sum_loop (sum_table 0 256) c bytes < 2 ^ 32
unfolding sum_loop sum_update
sum_loop-lt [] c h = h
sum_loop-lt (b ∷ bytes) c h = sum_loop-lt bytes (sum_update (sum_table 0 256) c b) (
    xor-lt 32 (get_or (sum_table 0 256) (bit_and (bit_xor c b) 0xFF) 0) (c / 2 ^ 8)
      (sum_table-lt 256 0 _ (omega arith)) (omega (arith, h)))

pub checksum-lt : (bytes : List ℕ) → checksum bytes < 2 ^ 32
unfolding checksum
checksum-lt bytes =
    xor-lt 32 (sum_loop (sum_table 0 256) 0xFFFFFFFF bytes) 0xFFFFFFFF
      (sum_loop-lt bytes 0xFFFFFFFF (omega arith)) (omega arith)

sum_bit-eq : (c : ℕ) → sum_bit c ≡ crc_bit c
unfolding sum_bit crc_bit
sum_bit-eq c = elim (Bool-cases (bit_and c 1 == 0)) [
  | inl e ↦
      if_true _ _ e ∙ sym (xor-zero (c / 2)) ∙ ap (bit_xor (c / 2)) (sym (if_true 0 polynomial e))
  | inr e ↦
      if_false _ _ e
      ∙ xor_comm polynomial (c / 2)
      ∙ ap (bit_xor (c / 2)) (sym (if_false 0 polynomial e))
]

sum_bits-eq : (n c : ℕ) → sum_bits n c ≡ crc_bits n c
unfolding sum_bits crc_bits
sum_bits-eq zero c = refl
sum_bits-eq (suc n) c = sum_bits-eq n (sum_bit c) ∙ ap (crc_bits n) (sum_bit-eq c)

sum_table-eq : (n i : ℕ) → sum_table i n ≡ table_from i n
unfolding sum_table table_from
sum_table-eq zero i = refl
sum_table-eq (suc n) i = ap₂ ◌∷◌ (sum_bits-eq 8 i) (sum_table-eq n (suc i))

sum_loop-eq : (t bytes : List ℕ) (c : ℕ) → sum_loop t c bytes ≡ crc_loop t c bytes
unfolding sum_loop sum_update crc_loop crc_update
sum_loop-eq t [] c = refl
sum_loop-eq t (b ∷ bytes) c = sum_loop-eq t bytes (crc_update t c b)

-- The two CRC-32 functions of the program, with static variables as their files leave them, give the
-- same checksum.
pub sum32-eq-crc32 :
    (s : SumState) (s' : CrcState) (bytes : List ℕ)
    → IsFilled s
    → IsReady s'
    → (sum32 s bytes).0 ≡ (crc32 s' bytes).0
unfolding crc32 checksum
sum32-eq-crc32 s s' bytes r r' =
    sum32-eq-checksum s bytes r
    ∙ ap (λ c. bit_xor c 0xFFFFFFFF)
        (sum_loop-eq (sum_table 0 256) bytes 0xFFFFFFFF
          ∙ ap (λ t. crc_loop t 0xFFFFFFFF bytes) (sum_table-eq 256 0 ∙ sym (init_table-eq s' r')))
