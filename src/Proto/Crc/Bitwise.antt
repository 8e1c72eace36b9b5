-- ===== src/Proto/Crc/Bitwise.antt =====
-- The table-driven checksum against the shift register that it stands for.
use robov.Prelude.{
  ℕ, zero, suc, ◌+◌, ◌*◌, ◌/◌, ◌%◌, ◌<◌, ◌≡◌, refl, ap, ◌∙◌, inl, inr, true, Bool-cases, All, List,
  [], ◌∷◌, if◌then◌else◌, ◌==◌, get_or, bit_xor, arith,
}
use robov.Prelude.Bits.{
  xor_assoc, xor_comm, xor_self, xor-zero, zero-xor, xor-half, xor-mod, xor_fields, and_mask,
}
use robov.Proto.Crc.{
  polynomial, CrcState, crc_bit, crc_bits, table_from, crc32_init_table, crc_update, crc_loop,
  crc32,
}

-- The checksum with no table: each byte goes into the low end of the register, which then makes
-- eight steps.
pub crc_register : ℕ → List ℕ → ℕ
crc_register crc [] = crc
crc_register crc (byte ∷ bytes) = crc_register (crc_bits 8 (bit_xor crc byte)) bytes

pub crc32_bitwise : List ℕ → ℕ
crc32_bitwise bytes = bit_xor (crc_register 0xFFFFFFFF bytes) 0xFFFFFFFF

feedback : ℕ → ℕ
feedback crc = if crc % 2 == 0 then 0 else polynomial

crc_bit_lem : (a : ℕ) → crc_bit a ≡ bit_xor (a / 2) (feedback a)
unfolding crc_bit feedback
crc_bit_lem a = rw (and_mask 1 a)

feedback-xor : (a b : ℕ) → feedback (bit_xor a b) ≡ bit_xor (feedback a) (feedback b)
unfolding feedback
feedback-xor a b =
    ground (
      arith,
      xor-mod a b,
      xor-zero polynomial,
      zero-xor polynomial,
      xor_self polynomial,
      xor-zero 0,
    )

xor_swap : (a b c d : ℕ) → bit_xor (bit_xor a b) (bit_xor c d) ≡ bit_xor (bit_xor a c) (bit_xor b d)
xor_swap a b c d = cc (
  xor_assoc a b (bit_xor c d),
  xor_assoc b c d,
  xor_assoc c b d,
  xor_comm b c,
  xor_assoc a c (bit_xor b d),
)

-- The register is linear.
crc_bit-xor : (a b : ℕ) → crc_bit (bit_xor a b) ≡ bit_xor (crc_bit a) (crc_bit b)
crc_bit-xor a b = cc (
  crc_bit_lem (bit_xor a b),
  crc_bit_lem a,
  crc_bit_lem b,
  xor-half a b,
  feedback-xor a b,
  xor_swap (a / 2) (b / 2) (feedback a) (feedback b),
)

crc_bits-xor : (n a b : ℕ) → crc_bits n (bit_xor a b) ≡ bit_xor (crc_bits n a) (crc_bits n b)
unfolding crc_bits
crc_bits-xor zero a b = refl
crc_bits-xor (suc n) a b =
    ap (crc_bits n) (crc_bit-xor a b) ∙ crc_bits-xor n (crc_bit a) (crc_bit b)

crc_bit_even : (a : ℕ) → crc_bit (a * 2) ≡ a
crc_bit_even a = crc_bit_lem (a * 2) ∙ even
  where
    even : bit_xor (a * 2 / 2) (feedback (a * 2)) ≡ a
    even = unfold feedback in ground (arith, xor-zero a)

-- Eight steps shift out eight zero bits.
crc_bits_shift : (a : ℕ) → crc_bits 8 (a * 256) ≡ a
unfolding crc_bits
crc_bits_shift a = ground (
  arith,
  crc_bit_even (a * 128),
  crc_bit_even (a * 64),
  crc_bit_even (a * 32),
  crc_bit_even (a * 16),
  crc_bit_even (a * 8),
  crc_bit_even (a * 4),
  crc_bit_even (a * 2),
  crc_bit_even a,
)

-- Eight steps work on the low byte and shift the others down.
crc_bits_split : (x : ℕ) → crc_bits 8 x ≡ bit_xor (crc_bits 8 (x % 256)) (x / 256)
crc_bits_split x =
    ap (crc_bits 8) split
    ∙ crc_bits-xor 8 (x % 256) (x / 256 * 256)
    ∙ ap (bit_xor (crc_bits 8 (x % 256))) (crc_bits_shift (x / 256))
  where
    split : x ≡ bit_xor (x % 256) (x / 256 * 256)
    split = ground (arith, xor_fields 8 (x / 256) (x % 256))

-- The table holds the eight steps of each byte.
get_or-table_from : (n i j : ℕ) → j < n → get_or (table_from i n) j 0 ≡ crc_bits 8 (i + j)
unfolding table_from
get_or-table_from zero i j h = elim h [ ]
get_or-table_from (suc n) i zero h = ap (crc_bits 8) (omega arith)
get_or-table_from (suc n) i (suc j) h =
    get_or-table_from n (suc i) j (omega arith) ∙ ap (crc_bits 8) (omega arith)

xor-shift_byte : (x y : ℕ) → y < 256 → bit_xor x y / 256 ≡ x / 256
xor-shift_byte x y h = ground (
  arith,
  xor-half x y,
  xor-half (x / 2) (y / 2),
  xor-half (x / 4) (y / 4),
  xor-half (x / 8) (y / 8),
  xor-half (x / 16) (y / 16),
  xor-half (x / 32) (y / 32),
  xor-half (x / 64) (y / 64),
  xor-half (x / 128) (y / 128),
  xor-zero (x / 256),
)

crc_update-table :
    (crc byte : ℕ)
    → byte < 256
    → crc_update (table_from 0 256) crc byte ≡ crc_bits 8 (bit_xor crc byte)
unfolding crc_update
crc_update-table crc byte h = ground (
  arith,
  and_mask 8 (bit_xor crc byte),
  get_or-table_from 256 0 (bit_xor crc byte % 256),
  crc_bits_split (bit_xor crc byte),
  xor-shift_byte crc byte h,
)

-- The static variables are consistent: either the table was never built, or it is complete.
pub record IsReady (s : CrcState) : Type 0 where
  pub built : s.table_init ≡ true → s.table ≡ table_from 0 256

pub init_table-eq : (s : CrcState) → IsReady s → (crc32_init_table s).table ≡ table_from 0 256
unfolding crc32_init_table
init_table-eq s r = elim (Bool-cases s.table_init) [ inl e ↦ rw e (r.built e) | inr e ↦ rw e ]

crc_loop-table :
    (bytes : List ℕ) (crc : ℕ)
    → All (λ b. b < 256) bytes
    → crc_loop (table_from 0 256) crc bytes ≡ crc_register crc bytes
unfolding crc_loop crc_register
crc_loop-table [] crc h = refl
crc_loop-table (b ∷ bytes) crc h = rw (crc_update-table crc b h.0) (crc_loop-table bytes _ h.1)

-- On bytes below 256, with static variables as the file leaves them, the table-driven `rc_crc32`
-- computes the bitwise checksum, on the first call, which builds the table, and on every later
-- one.
pub crc32-eq-bitwise :
    (s : CrcState) (bytes : List ℕ)
    → IsReady s
    → All (λ b. b < 256) bytes
    → (crc32 s bytes).0 ≡ crc32_bitwise bytes
unfolding crc32 crc32_bitwise
crc32-eq-bitwise s bytes r h =
    rw (init_table-eq s r) (ap (λ c. bit_xor c 0xFFFFFFFF) (crc_loop-table bytes 0xFFFFFFFF h))

-- A call leaves the static variables consistent.
pub crc32-IsReady : (s : CrcState) (bytes : List ℕ) → IsReady s → IsReady (crc32 s bytes).1
unfolding crc32
crc32-IsReady s bytes r = record { built = λ e. init_table-eq s r }
