-- ===== src/Packet/Examples.antt =====
-- The packets of include/proto.h at small inputs.
use robov.Prelude.{ℕ, ◌≡◌, List, [], ◌∷◌, false, some, replicate, arith}
use robov.Proto.Crc.{CrcState, crc32}
use robov.Packet.{SumState, sum32, Fields, encoded, decoded, packet_encode, packet_decode}
use robov.Packet.Sum.{IsFilled, sum32-eq-crc32}
use robov.Packet.RoundTrip.{InRange, carried, decode-encode}

abbrev unfilled : SumState
unfilled = record { table = replicate 256 0; initialized = false }

unfilled-IsFilled : IsFilled unfilled
unfilled-IsFilled = record { filled = λ e. cc }

abbrev fresh : CrcState
fresh = record { table = replicate 256 0; table_init = false }

abbrev fields : Fields
fields = record { kind = 0x10; flags = 4; session_id = 70000; seq_num = 9 }

fields-InRange : InRange fields
fields-InRange = record {
  kind_in = omega arith;
  flags_in = omega arith;
  session_in = omega arith;
  seq_in = omega arith;
}

-- The text `bye`.
abbrev bye : List ℕ
bye = 98 ∷ 121 ∷ 101 ∷ []

decode-encode_example :
    let (r, bytes, s1) = packet_encode unfilled fields (some bye) 3 (replicate 30 255) in
    (r ≡ encoded 23) × ((packet_decode unfilled bytes).0 ≡ decoded fields (some bye) 23)
unfolding carried
decode-encode_example =
    decode-encode unfilled unfilled fields bye (replicate 30 255) unfilled-IsFilled
      unfilled-IsFilled fields-InRange (omega arith) (omega arith)

sum32-eq-crc32_example : (sum32 unfilled bye).0 ≡ (crc32 fresh bye).0
sum32-eq-crc32_example =
    sum32-eq-crc32 unfilled fresh bye unfilled-IsFilled (record { built = λ e. cc })
