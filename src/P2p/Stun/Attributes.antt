-- ===== src/P2p/Stun/Attributes.antt =====
-- `stun_parse_response` on the messages that a STUN server sends (RFC 5389): attributes, padded to
-- four bytes, one of which is XOR-MAPPED-ADDRESS.
use robov.Prelude.{
  get_or-append, ℕ, zero, suc, ◌+◌, ◌*◌, ◌%◌, ◌^◌, ◌<◌, ◌≤◌, ◌≡◌, ◌==◌, refl, sym, ap, ap₂, ◌∙◌,
  List, [], ◌∷◌, ◌++◌, append_assoc, append-nil, true, false, ◌&&◌, if_true, if_false, ltb, leb,
  length, length-append, get_or, arith, bit_xor,
}
use robov.Prelude.Bits.{xor-lt, xor_assoc, xor_self, xor-zero}
use robov.Proto.Bytes.{be_bytes, be_from, be_at}
use robov.P2p.Stun.{stun_magic, mapped, reading, is_address, unmask, padded, attribute, scan}

be_from-append :
    (k : ℕ) (pre xs : List ℕ) (j acc : ℕ)
    → be_from k (pre ++ xs) (length pre + j) acc ≡ be_from k xs j acc
unfolding be_from
be_from-append zero pre xs j acc = refl
be_from-append (suc k) pre xs j acc =
    ap₂ (λ i v. be_from k (pre ++ xs) i (acc * 256 + v)) (after (length pre) j)
      (get_or-append pre xs j 0)
    ∙ be_from-append k pre xs (suc j) (acc * 256 + get_or xs j 0)
  where
    after : (l j : ℕ) → suc (l + j) ≡ l + suc j
    after l j = omega arith

-- A number at a place behind `pre`.
at-append : (k : ℕ) (pre xs : List ℕ) (j : ℕ) → be_at k (pre ++ xs) (length pre + j) ≡ be_at k xs j
unfolding be_at
at-append k pre xs j = be_from-append k pre xs j 0

at-head : (k : ℕ) (pre xs : List ℕ) → be_at k (pre ++ xs) (length pre) ≡ be_at k xs 0
at-head k pre xs = ap (be_at k (pre ++ xs)) (at_start (length pre)) ∙ at-append k pre xs 0
  where
    at_start : (l : ℕ) → l ≡ l + 0
    at_start l = omega arith

two_bytes : (x : ℕ) (rest : List ℕ) → x < 2 ^ 16 → be_at 2 (be_bytes 2 x ++ rest) 0 ≡ x
unfolding be_at be_from be_bytes
two_bytes x rest h = omega (arith, h)

-- An attribute, with the bytes that pad it.
pub record Attr : Type 0 where
  pub kind : ℕ
  pub value : List ℕ
  pub padding : List ℕ

-- An attribute that holds no mapped address.
pub record IsOther (a : Attr) : Type 0 where
  pub kind_in : a.kind < 2 ^ 16
  pub not_address : is_address a.kind ≡ false
  pub value_in : length a.value < 2 ^ 16
  pub pads : (length a.value + length a.padding) % 4 ≡ 0
  pub pads_in : length a.padding < 4

unfoldable pub attr_bytes : Attr → List ℕ → List ℕ
attr_bytes a rest =
    be_bytes 2 a.kind ++ (be_bytes 2 (length a.value) ++ (a.value ++ (a.padding ++ rest)))

-- Attributes, and what follows them.
unfoldable pub attrs_bytes : List Attr → List ℕ → List ℕ
unfolding attr_bytes
attrs_bytes [] rest = rest
attrs_bytes (a ∷ others) rest = attr_bytes a (attrs_bytes others rest)

-- XOR-MAPPED-ADDRESS of an IPv4 address, and what follows it.
unfoldable pub address_bytes : ℕ → ℕ → List ℕ → List ℕ
address_bytes ip port rest =
    be_bytes 2 0x0020
    ++ (be_bytes 2 8
        ++ (0 ∷ 1 ∷ be_bytes 2 (bit_xor port 0x2112)
            ++ (be_bytes 4 (bit_xor ip stun_magic) ++ rest)))

-- A binding response: its header, with the number of the transaction and the length of the rest.
unfoldable pub response : List ℕ → List ℕ → List ℕ
response txn body =
    (be_bytes 2 0x0101 ++ (be_bytes 2 (length body) ++ (be_bytes 4 stun_magic ++ txn))) ++ body

pub attr_bytes-append : (a : Attr) (rest : List ℕ) → attr_bytes a rest ≡ attr_bytes a [] ++ rest
unfolding attr_bytes be_bytes
attr_bytes-append a rest =
    ap (λ t. be_bytes 2 a.kind ++ (be_bytes 2 (length a.value) ++ t))
      (ap (λ t. a.value ++ t) (ap (λ t. t ++ rest) (sym (append-nil a.padding)))
        ∙ sym (append_assoc a.value (a.padding ++ []) rest))

pub length-attr_bytes :
    (a : Attr) (rest : List ℕ)
    → IsOther a
    → length (attr_bytes a rest) ≡ 4 + padded (length a.value) + length rest
unfolding attr_bytes be_bytes padded
length-attr_bytes a rest o =
    omega (arith, length-append a.value (a.padding ++ rest), length-append a.padding rest, o.pads)

le-padded : (n : ℕ) → n ≤ padded n
unfolding padded
le-padded n = omega arith

-- The type and the length of the attribute behind `pre`.
module _ (pre : List ℕ) (a : Attr) (rest : List ℕ) (o : IsOther a) where
  kind-read : be_at 2 (pre ++ attr_bytes a rest) (length pre) ≡ a.kind
  unfolding attr_bytes
  kind-read = at-head 2 pre (attr_bytes a rest) ∙ two_bytes a.kind _ o.kind_in

  length-read : be_at 2 (pre ++ attr_bytes a rest) (length pre + 2) ≡ length a.value
  unfolding attr_bytes be_bytes be_at be_from
  length-read =
      at-append 2 pre (attr_bytes a rest) 2
      ∙ two_bytes (length a.value) (a.value ++ (a.padding ++ rest)) o.value_in

  -- The loop goes on behind an attribute of another type.
  pub scan-other :
      (fuel end : ℕ)
      → length pre + 4 + padded (length a.value) ≤ end
      → end ≤ length (pre ++ attr_bytes a rest)
      → scan (suc fuel) (pre ++ attr_bytes a rest) end (length pre)
        ≡ scan fuel (pre ++ attr_bytes a rest) end (length pre + 4 + padded (length a.value))
  unfolding scan reading attribute
  scan-other fuel end fits held =
      let buf : List ℕ = pre ++ attr_bytes a rest in
      let size = be_at 2 buf (length pre + 2) in
      let inside : leb (length pre + 4) end ≡ true = ground (arith, fits) in
      let readable : leb (length pre + 4) (length buf) ≡ true = ground (arith, fits, held) in
      let whole : ltb end (length pre + 4 + size) ≡ false =
        ground (arith, fits, length-read, le-padded (length a.value)) in
      let other : (is_address (be_at 2 buf (length pre)) && leb 8 size) ≡ false =
        ap (λ x. is_address x && leb 8 size) kind-read ∙ ap (λ b. b && leb 8 size) o.not_address in
      if_true _ _ inside
      ∙ if_true _ _ readable
      ∙ if_false _ _ whole
      ∙ if_false _ _ other
      ∙ ap (λ n. scan fuel buf end (length pre + 4 + padded n)) length-read

-- The loop ends at the address behind `pre`.
module _ (pre rest : List ℕ) (ip port : ℕ) (ip_in : ip < 2 ^ 32) (port_in : port < 2 ^ 16) where
  abbrev here : List ℕ
  here = address_bytes ip port rest

  at_here : (k j : ℕ) → be_at k (pre ++ here) (length pre + j) ≡ be_at k here j
  at_here k j = at-append k pre here j

  address-type : be_at 2 (pre ++ here) (length pre) ≡ 0x0020
  unfolding address_bytes be_bytes be_at be_from
  address-type = at-head 2 pre here

  address-length : be_at 2 (pre ++ here) (length pre + 2) ≡ 8
  unfolding address_bytes be_bytes be_at be_from
  address-length = at_here 2 2

  address-family : get_or (pre ++ here) (length pre + 5) 0 ≡ 1
  unfolding address_bytes be_bytes
  address-family = get_or-append pre here 5 0

  address-port : be_at 2 (pre ++ here) (length pre + 6) ≡ bit_xor port 0x2112
  unfolding address_bytes be_bytes be_at be_from
  address-port = at_here 2 6 ∙ omega (arith, xor-lt 16 port 0x2112 port_in (omega arith))

  address-ip : be_at 4 (pre ++ here) (length pre + 8) ≡ bit_xor ip stun_magic
  unfolding address_bytes be_bytes be_at be_from
  address-ip = at_here 4 8 ∙ omega (arith, xor-lt 32 ip stun_magic ip_in (omega arith))

  xor-xor : (a m : ℕ) → bit_xor (bit_xor a m) m ≡ a
  xor-xor a m = xor_assoc a m m ∙ ap (bit_xor a) (xor_self m) ∙ xor-zero a

  pub scan-address :
      (fuel end : ℕ)
      → length pre + 12 ≤ end
      → end ≤ length (pre ++ here)
      → scan (suc fuel) (pre ++ here) end (length pre) ≡ mapped ip port
  unfolding scan reading attribute unmask is_address
  scan-address fuel end fits held =
      let buf : List ℕ = pre ++ here in
      let size = be_at 2 buf (length pre + 2) in
      let inside : leb (length pre + 4) end ≡ true = ground (arith, fits) in
      let readable : leb (length pre + 4) (length buf) ≡ true = ground (arith, fits, held) in
      let whole : ltb end (length pre + 4 + size) ≡ false = ground (arith, fits, address-length) in
      let mine : (is_address (be_at 2 buf (length pre)) && leb 8 size) ≡ true =
        ap₂ (λ x n. is_address x && leb 8 n) address-type address-length in
      let to_family : leb (length pre + 6) (length buf) ≡ true = ground (arith, fits, held) in
      let family : (get_or buf (length pre + 5) 0 == 1) ≡ true = ap (λ x. x == 1) address-family in
      let to_end : leb (length pre + 12) (length buf) ≡ true = ground (arith, fits, held) in
      if_true _ _ inside
      ∙ if_true _ _ readable
      ∙ if_false _ _ whole
      ∙ if_true _ _ mine
      ∙ if_true _ _ to_family
      ∙ if_true _ _ family
      ∙ if_true _ _ to_end
      ∙ if_true _ _ (ap (λ x. x == 0x0020) address-type)
      ∙ ap₂ mapped (ap (λ x. bit_xor x stun_magic) address-ip ∙ xor-xor ip stun_magic)
          (ap (λ x. bit_xor x 0x2112) address-port ∙ xor-xor port 0x2112)
