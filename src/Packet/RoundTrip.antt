-- ===== src/Packet/RoundTrip.antt =====
-- `rc_packet_encode` and `rc_packet_decode` of include/proto.h against each other.
use robov.Prelude.{
  ℕ, zero, suc, ◌+◌, ◌*◌, ◌^◌, ◌<◌, ◌≤◌, ◌≡◌, ◌==◌, refl, sym, ap, ap₂, ◌∙◌, true, false, if_true,
  if_false, ==_iff, List, [], ◌∷◌, ◌++◌, append_assoc, Option, none, some, arith, ltb, length,
  length-append, take, drop, take-length-append, drop-add-append, take_all, get_or-append,
}
use robov.Packet.{
  SumState, sum32, Fields, packet_header, packet_payload, low_bytes, low_at, put, packet_bytes,
  put_payload, Encoded, encoded, packet_encode, Decoded, decoded, decoded_fields, payload_at,
  checked, packet_decode,
}
use robov.Packet.Sum.{IsFilled, checksum, sum32-eq-checksum, checksum-lt}

-- The fields fit their widths.
pub record InRange (f : Fields) : Type 0 where
  pub kind_in : f.kind < 256
  pub flags_in : f.flags < 256
  pub session_in : f.session_id < 2 ^ 32
  pub seq_in : f.seq_num < 2 ^ 32

-- The 16 bytes of the header.
header : Fields → ℕ → List ℕ
header f plen = take 16 (packet_bytes f plen)

low_at-append :
    (k : ℕ) (pre xs : List ℕ) (j : ℕ) → low_at k (pre ++ xs) (length pre + j) ≡ low_at k xs j
unfolding low_at
low_at-append zero pre xs j = refl
low_at-append (suc k) pre xs j =
    ap₂ (λ a b. a + 256 * b) (get_or-append pre xs j 0)
      (ap (low_at k (pre ++ xs)) (after (length pre) j) ∙ low_at-append k pre xs (suc j))
  where
    after : (l j : ℕ) → suc (l + j) ≡ l + suc j
    after l j = omega arith

low_at-bytes : (x : ℕ) (rest : List ℕ) → x < 2 ^ 32 → low_at 4 (low_bytes 4 x ++ rest) 0 ≡ x
unfolding low_at low_bytes
low_at-bytes x rest h = omega (arith, h)

-- The bytes that the checksum covers.
module _ (f : Fields) (payload : List ℕ) where
  body : List ℕ
  unfolding header
  body = header f (length payload) ++ payload

  length-body : length body ≡ packet_header + length payload
  unfolding body header packet_bytes low_bytes
  length-body = omega arith

-- What the encoder has stored before the checksum, and after it.
module _ (f : Fields) (payload out : List ℕ) where
  stored : List ℕ
  stored = put_payload (put out 0 (packet_bytes f (length payload))) (some payload) (length payload)

  behind : List ℕ
  behind = drop (length payload) (0 ∷ 0 ∷ drop 18 out)

  stored-eq : stored ≡ (body f payload) ++ behind
  unfolding stored body behind header put put_payload packet_bytes low_bytes
  stored-eq =
      let start : List ℕ = header f (length payload) in
      let raw : List ℕ = put out 0 (packet_bytes f (length payload)) in
      ap (λ t. start ++ (t ++ drop (16 + length t) raw)) (take_all payload)
      ∙ ap (λ t. start ++ (payload ++ t))
          (drop-add-append start (0 ∷ 0 ∷ drop 18 out) (length payload))
      ∙ sym (append_assoc start payload behind)

  -- The length of what the checksum covers.
  covered : ℕ
  covered = packet_header + length payload

  take-stored : take covered stored ≡ (body f payload)
  unfolding covered
  take-stored =
      ap (take covered) stored-eq
      ∙ ap (λ n. take n ((body f payload) ++ behind)) (sym (length-body f payload))
      ∙ take-length-append (body f payload) behind

  packet : List ℕ
  packet = (body f payload) ++ (low_bytes 4 (checksum (body f payload)) ++ drop 4 behind)

  put-stored :
      (crc : ℕ)
      → put stored covered (low_bytes 4 crc)
        ≡ (body f payload) ++ (low_bytes 4 crc ++ drop 4 behind)
  unfolding covered put low_bytes
  put-stored crc =
      ap₂ (λ a b. a ++ (low_bytes 4 crc ++ b)) take-stored
        (ap₂ (λ n t. drop (n + 4) t) (sym (length-body f payload)) stored-eq
          ∙ drop-add-append (body f payload) behind 4)

  encode-eq :
      (s : SumState)
      → IsFilled s
      → packet_header + length payload + 4 ≤ length out
      → length payload < 2 ^ 16
      → ((packet_encode s f (some payload) (length payload) out).0
          ≡ encoded (packet_header + length payload + 4))
        × ((packet_encode s f (some payload) (length payload) out).1 ≡ packet)
  unfolding packet_encode packet stored covered
  encode-eq s r fits small =
      let roomy : ltb (length out) (packet_header + length payload + 4) ≡ false =
        ground (arith, fits) in
      let limited : ltb packet_payload (length payload) ≡ false = ground (arith, small) in
      let all : packet_encode s f (some payload) (length payload) out ≡ (
        encoded (packet_header + length payload + 4),
        put stored covered (low_bytes 4 (sum32 s (take covered stored)).0),
        (sum32 s (take covered stored)).1,
      ) =
        if_false _ _ roomy ∙ if_false _ _ limited in
      (
        ap (λ (q : Encoded × List ℕ × SumState). q.0) all,
        ap (λ (q : Encoded × List ℕ × SumState). q.1) all
            ∙ put-stored (sum32 s (take covered stored)).0
            ∙ ap (λ c. (body f payload) ++ (low_bytes 4 c ++ drop 4 behind))
                (ap (λ t. (sum32 s t).0) take-stored ∙ sum32-eq-checksum s (body f payload) r),
      )

-- The payload that the decoder gives: NULL for an empty one.
unfoldable pub carried : List ℕ → Option (List ℕ)
carried [] = none
carried (x ∷ xs) = some (x ∷ xs)

-- A packet with a given checksum, and what follows it.
abbrev wire : Fields → List ℕ → List ℕ → ℕ → List ℕ
wire f payload rest crc = body f payload ++ (low_bytes 4 crc ++ rest)

-- The decoder on it.
module _ (f : Fields) (payload rest : List ℕ) (crc : ℕ) (v : InRange f)
    (small : length payload < 2 ^ 16) where
  wire-fields : decoded_fields (wire f payload rest crc) ≡ f
  unfolding decoded_fields body header packet_bytes low_bytes low_at
  wire-fields = ground (arith, v.kind_in, v.flags_in, v.session_in, v.seq_in)

  wire-length : low_at 2 (wire f payload rest crc) 14 ≡ length payload
  unfolding body header packet_bytes low_bytes low_at
  wire-length = omega (arith, small)

  wire-crc :
      crc < 2 ^ 32 → low_at 4 (wire f payload rest crc) (packet_header + length payload) ≡ crc
  wire-crc h =
      ap (low_at 4 (wire f payload rest crc)) (here (length-body f payload))
      ∙ low_at-append 4 (body f payload) (low_bytes 4 crc ++ rest) 0
      ∙ low_at-bytes crc rest h
    where
      here : {l : ℕ} → l ≡ packet_header + length payload → packet_header + length payload ≡ l + 0
      here e = omega (arith, e)

  length-wire : length (wire f payload rest crc) ≡ packet_header + length payload + 4 + length rest
  unfolding low_bytes
  length-wire =
      omega (arith, length-append (body f payload) (low_bytes 4 crc ++ rest), length-body f payload)

  take-wire : take (packet_header + length payload) (wire f payload rest crc) ≡ body f payload
  take-wire =
      ap (λ n. take n (wire f payload rest crc)) (sym (length-body f payload))
      ∙ take-length-append (body f payload) (low_bytes 4 crc ++ rest)

wire-payload :
    (f : Fields) (payload rest : List ℕ) (crc : ℕ)
    → payload_at (body f payload ++ (low_bytes 4 crc ++ rest)) (length payload) ≡ carried payload
unfolding payload_at carried body header packet_bytes low_bytes
wire-payload f [] rest crc = refl
wire-payload f (x ∷ xs) rest crc =
    ap (λ l. some (x ∷ l)) (take-length-append xs (low_bytes 4 crc ++ rest))

decode-wire :
    (s : SumState) (f : Fields) (payload rest : List ℕ)
    → IsFilled s
    → InRange f
    → length payload < 2 ^ 16
    → (packet_decode s (wire f payload rest (checksum (body f payload)))).0
      ≡ decoded f (carried payload) (packet_header + length payload + 4)
unfolding packet_decode checked body header packet_bytes low_bytes
decode-wire s f payload rest r v small =
    let crc = checksum (body f payload) in
    let w : List ℕ = wire f payload rest crc in
    let size = length-wire f payload rest crc v small in
    let plen = wire-length f payload rest crc v small in
    let long : ltb (length w) packet_header ≡ false = ground (arith, size) in
    let whole : ltb (length w) (packet_header + low_at 2 w 14 + 4) ≡ false =
      ground (arith, size, plen) in
    let limited : ltb packet_payload (low_at 2 w 14) ≡ false = ground (arith, plen, small) in
    let summed : (sum32 s (take (packet_header + length payload) w)).0 ≡ crc =
      ap (λ b. (sum32 s b).0) (take-wire f payload rest crc v small)
      ∙ sum32-eq-checksum s (body f payload) r in
    let same : (low_at 4 w (packet_header + length payload) == crc) ≡ true =
      (==_iff (low_at 4 w (packet_header + length payload)) crc).1
        (wire-crc f payload rest crc v small (checksum-lt (body f payload))) in
    ap (λ (q : Decoded × SumState). q.0)
      (if_false _ _ long ∙ if_false _ _ whole ∙ if_false _ _ limited)
    ∙ ap (λ n. checked w n (sum32 s (take (packet_header + n) w)).0) plen
    ∙ ap (checked w (length payload)) summed
    ∙ if_true _ _ same
    ∙ ap₂ (λ g o. decoded g o (packet_header + length payload + 4))
        (wire-fields f payload rest crc v small) (wire-payload f payload rest crc)

-- What is encoded from fields within their widths and a payload of fewer than 2 ^ 16 bytes, into a
-- buffer with room for it, has the length that is returned, and the decoder gives the same fields, the
-- payload (NULL for an empty one) and that length from it, whatever stood in the buffer before and
-- stands behind the packet; the static variables of both checksums are as the file leaves them.
pub decode-encode :
    (s s' : SumState) (f : Fields) (payload out : List ℕ)
    → IsFilled s
    → IsFilled s'
    → InRange f
    → length payload < 2 ^ 16
    → packet_header + length payload + 4 ≤ length out
    → let (r, bytes, s1) = packet_encode s f (some payload) (length payload) out in
      let total = packet_header + length payload + 4 in
      (r ≡ encoded total) × ((packet_decode s' bytes).0 ≡ decoded f (carried payload) total)
unfolding packet
decode-encode s s' f payload out r r' v small fits =
    let done = encode-eq f payload out s r fits small in
    (
      done.0,
      ap (λ b. (packet_decode s' b).0) done.1
          ∙ decode-wire s' f payload (drop 4 (behind f payload out)) r' v small,
    )
