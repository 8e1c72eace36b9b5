-- ===== src/P2p/Stun/Response.antt =====
-- `stun_parse_response` finds the address behind any other attributes.
use robov.Prelude.{
  true, if_true, leb, ℕ, zero, suc, ◌+◌, ◌^◌, ◌<◌, ◌≤◌, ◌≡◌, sym, ap, ap₂, ◌∙◌, List, [], ◌∷◌, ◌++◌,
  append_assoc, false, if_false, ltb, length, length-append, All, arith,
}
use robov.Proto.Bytes.{be_bytes, be_from, be_at}
use robov.P2p.Stun.{reading, stun_magic, mapped, padded, scan, parse_response}
use robov.P2p.Stun.Attributes.{
  Attr, IsOther, attr_bytes, attrs_bytes, address_bytes, response, attr_bytes-append,
  length-attr_bytes, scan-other, scan-address,
}

-- The bytes that attributes take.
attrs_size : List Attr → ℕ
attrs_size [] = 0
attrs_size (a ∷ others) = 4 + padded (length a.value) + attrs_size others

length-attrs_bytes :
    (others : List Attr) (rest : List ℕ)
    → All IsOther others
    → length (attrs_bytes others rest) ≡ attrs_size others + length rest
unfolding attrs_bytes attrs_size
length-attrs_bytes [] rest os = omega arith
length-attrs_bytes (a ∷ others) rest os =
    omega (
      arith,
      length-attr_bytes a (attrs_bytes others rest) os.0,
      length-attrs_bytes others rest os.1,
    )

length-le-size : (others : List Attr) → length others ≤ attrs_size others
unfolding attrs_size
length-le-size [] = omega arith
length-le-size (a ∷ others) = omega (arith, length-le-size others)

module _ (ip port : ℕ) (ip_in : ip < 2 ^ 32) (port_in : port < 2 ^ 16) (rest : List ℕ) where
  scan-attrs :
      (others : List Attr) (pre : List ℕ) (rounds end : ℕ)
      → All IsOther others
      → length others < rounds
      → length pre + attrs_size others + 12 ≤ end
      → end ≤ length (pre ++ attrs_bytes others (address_bytes ip port rest))
      → scan rounds (pre ++ attrs_bytes others (address_bytes ip port rest)) end (length pre)
        ≡ mapped ip port
  unfolding attrs_bytes attrs_size
  scan-attrs others pre zero end os more fits held = absurd (omega (arith, more))
  scan-attrs [] pre (suc rounds) end os more fits held =
      scan-address pre rest ip port ip_in port_in rounds end (omega (arith, fits)) held
  scan-attrs (a ∷ others) pre (suc rounds) end os more fits held =
      let tail : List ℕ = attrs_bytes others (address_bytes ip port rest) in
      let pre' : List ℕ = pre ++ attr_bytes a [] in
      let joined : pre ++ attr_bytes a tail ≡ pre' ++ tail =
        ap (λ t. pre ++ t) (attr_bytes-append a tail)
        ∙ sym (append_assoc pre (attr_bytes a []) tail) in
      let size : length pre' ≡ length pre + 4 + padded (length a.value) =
        omega (arith, length-append pre (attr_bytes a []), length-attr_bytes a [] os.0) in
      scan-other pre a tail os.0 rounds end (omega (arith, fits)) held
      ∙ ap₂ (λ b i. scan rounds b end i) joined (sym size)
      ∙ scan-attrs others pre' rounds end os.1 (omega (arith, more)) (omega (arith, fits, size))
          (omega (arith, held, ap length joined))

  address-size : length (address_bytes ip port rest) ≡ 12 + length rest
  unfolding address_bytes be_bytes
  address-size = omega arith

  -- A binding response with any transaction number, whose attributes are any number of attributes
  -- of other types, padded to four bytes, the XOR-MAPPED-ADDRESS of an IPv4 address and port, and
  -- any further bytes, is parsed to that address and port.
  pub parse-response :
      (txn : List ℕ) (others : List Attr)
      → length txn ≡ 12
      → All IsOther others
      → length (attrs_bytes others (address_bytes ip port rest)) < 2 ^ 16
      → parse_response (response txn (attrs_bytes others (address_bytes ip port rest)))
        ≡ mapped ip port
  unfolding parse_response reading response be_bytes be_at be_from
  parse-response txn others lt os short =
      let body : List ℕ = attrs_bytes others (address_bytes ip port rest) in
      let header : List ℕ =
        be_bytes 2 0x0101 ++ (be_bytes 2 (length body) ++ (be_bytes 4 stun_magic ++ txn)) in
      let buf : List ℕ = header ++ body in
      let header_length : length header ≡ 20 = omega (arith, lt) in
      let size : length buf ≡ 20 + length body =
        omega (arith, length-append header body, header_length) in
      let said : be_at 2 buf 2 ≡ length body = omega (arith, short) in
      let room : length body ≡ attrs_size others + (12 + length rest) =
        omega (arith, length-attrs_bytes others (address_bytes ip port rest) os, address-size) in
      let enough : ltb (length buf) 20 ≡ false = ground (arith, size) in
      let header_there : leb 8 (length buf) ≡ true = ground (arith, size) in
      let whole : ltb (length buf) (20 + be_at 2 buf 2) ≡ false = ground (arith, size, said) in
      if_false _ _ enough
      ∙ if_true _ _ header_there
      ∙ if_false _ _ whole
      ∙ ap (λ n. scan (suc n) buf (20 + n) 20) said
      ∙ ap (λ i. scan (suc (length body)) buf (20 + length body) i) (sym header_length)
      ∙ scan-attrs others header (suc (length body)) (20 + length body) os
          (omega (arith, room, length-le-size others)) (omega (arith, room, header_length))
          (omega (arith, size))
