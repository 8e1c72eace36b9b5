-- ===== src/Proto/Examples.antt =====
-- The packet functions at small inputs.
use robov.Prelude.{ℕ, ◌≡◌, refl, false, List, [], ◌∷◌, replicate, arith}
use robov.Proto.{Header}
use robov.Proto.Bytes.{IsBytes, all_bytes, all_bytes-IsBytes}
use robov.Proto.Crc.{CrcState, crc32}
use robov.Proto.Crc.Bitwise.{crc32_bitwise, crc32-eq-bitwise}

abbrev header : Header
header = record {
  magic = 0x524F424F;
  version = 1;
  kind = 3;
  seq = 0x01020304;
  ack = 9;
  timestamp = 1700000000;
  payload_len = 0;
  flags = 16;
  conn_id = 77;
}

-- Thirty-three bytes.
abbrev bytes : List ℕ
bytes = 82 ∷ 79 ∷ 66 ∷ 79 ∷ 0 ∷ 1 ∷ 0 ∷ 3 ∷ replicate 25 255

bytes-IsBytes : IsBytes bytes
unfolding all_bytes
bytes-IsBytes = all_bytes-IsBytes bytes refl

abbrev fresh : CrcState
fresh = record { table = replicate 256 0; table_init = false }

crc32-eq-bitwise_example : (crc32 fresh (49 ∷ 50 ∷ 51 ∷ [])).0 ≡ crc32_bitwise (49 ∷ 50 ∷ 51 ∷ [])
crc32-eq-bitwise_example =
    crc32-eq-bitwise fresh (49 ∷ 50 ∷ 51 ∷ []) (record { built = λ e. cc })
      (omega arith, (omega arith, (omega arith, tt)))
