-- ===== src/Proto/Crc.antt =====
-- `rc_crc32` of src/core/rc_proto.c: the table-driven CRC-32, with its table as state.
pub mod Bitwise
use robov.Prelude.{
  ℕ, zero, suc, ◌+◌, ◌/◌, ◌^◌, Bool, true, List, [], ◌∷◌, if◌then◌else◌, ◌==◌, get_or, bit_and,
  bit_xor,
}

abbrev pub polynomial : ℕ
polynomial = 0xEDB88320

-- `crc32_table` and `crc32_table_init`, the static variables of the file.
pub record CrcState : Type 0 where
  pub table : List ℕ
  pub table_init : Bool

-- One round of the inner loop of `crc32_init_table`.
unfoldable pub crc_bit : ℕ → ℕ
crc_bit crc = bit_xor (crc / 2) (if bit_and crc 1 == 0 then 0 else polynomial)

unfoldable pub crc_bits : ℕ → ℕ → ℕ
crc_bits zero crc = crc
crc_bits (suc n) crc = crc_bits n (crc_bit crc)

-- The entries of `n` rounds of the outer loop, from `i` on.
unfoldable pub table_from : ℕ → ℕ → List ℕ
table_from i zero = []
table_from i (suc n) = crc_bits 8 i ∷ table_from (suc i) n

pub crc32_init_table : CrcState → CrcState
crc32_init_table s =
    if s.table_init then s else record { table = table_from 0 256; table_init = true }

unfoldable pub crc_update : List ℕ → ℕ → ℕ → ℕ
crc_update table crc byte = bit_xor (get_or table (bit_and (bit_xor crc byte) 0xFF) 0) (crc / 2 ^ 8)

unfoldable pub crc_loop : List ℕ → ℕ → List ℕ → ℕ
crc_loop table crc [] = crc
crc_loop table crc (byte ∷ bytes) = crc_loop table (crc_update table crc byte) bytes

-- `rc_crc32`: the checksum, and the static variables after the call.
unfoldable pub crc32 : CrcState → List ℕ → ℕ × CrcState
crc32 s bytes =
    let s' = crc32_init_table s in (bit_xor (crc_loop s'.table 0xFFFFFFFF bytes) 0xFFFFFFFF, s')
