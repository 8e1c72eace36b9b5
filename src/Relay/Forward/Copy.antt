-- ===== src/Relay/Forward/Copy.antt =====
-- The bytes of the buffer that `rc_relay_forward` sends, place by place.
use robov.Prelude.{ℕ, suc, ◌≡◌, refl, ap, ap₂, List, [], ◌∷◌, ◌++◌, map, arith, get_or, drop}
use robov.Proto.{header_size, hdr_pack}
use robov.Proto.Bytes.{be_bytes, be_at, be_from, IsBytes}
use robov.Relay.Forward.{Endian, little, big, le_at, host_at, overlay, readdress}

-- Which places of a packet the first 28 bytes of the buffer come from: their own on a big-endian machine,
-- and turned round within each field on a little-endian one.
unfoldable pub places : Endian → List ℕ
places big =
    0 ∷ 1 ∷ 2 ∷ 3 ∷ 4 ∷ 5 ∷ 6 ∷ 7 ∷ 8 ∷ 9 ∷ 10 ∷ 11 ∷ 12 ∷ 13 ∷ 14 ∷ 15 ∷ 16 ∷ 17 ∷ 18 ∷ 19 ∷ 20
    ∷ 21 ∷ 22 ∷ 23 ∷ 24 ∷ 25 ∷ 26 ∷ 27 ∷ []
places little =
    3 ∷ 2 ∷ 1 ∷ 0 ∷ 5 ∷ 4 ∷ 7 ∷ 6 ∷ 11 ∷ 10 ∷ 9 ∷ 8 ∷ 15 ∷ 14 ∷ 13 ∷ 12 ∷ 23 ∷ 22 ∷ 21 ∷ 20 ∷ 19
    ∷ 18 ∷ 17 ∷ 16 ∷ 25 ∷ 24 ∷ 27 ∷ 26 ∷ []

-- The packet for the end with the identifier `conn_id`.
unfoldable pub addressed : Endian → List ℕ → ℕ → List ℕ
addressed e pkt conn_id =
    map (λ i. get_or pkt i 0) (places e) ++ (be_bytes 4 conn_id ++ drop 32 pkt)

module _ (pkt : List ℕ) (b : IsBytes pkt) where
  two_little :
      (off : ℕ)
      → be_bytes 2 (host_at little 2 pkt off) ≡ get_or pkt (suc off) 0 ∷ get_or pkt off 0 ∷ []
  unfolding be_bytes host_at be_at be_from le_at
  two_little off = ground (arith, b off, b (suc off))

  four_little :
      (off : ℕ)
      → be_bytes 4 (host_at little 4 pkt off)
        ≡ get_or pkt (suc (suc (suc off))) 0
          ∷ get_or pkt (suc (suc off)) 0
          ∷ get_or pkt (suc off) 0
          ∷ get_or pkt off 0
          ∷ []
  unfolding be_bytes host_at be_at be_from le_at
  four_little off = ground (arith, b off, b (suc off), b (suc (suc off)), b (suc (suc (suc off))))

  eight_little :
      (off : ℕ)
      → be_bytes 8 (host_at little 8 pkt off)
        ≡ get_or pkt (suc (suc (suc (suc (suc (suc (suc off))))))) 0
          ∷ get_or pkt (suc (suc (suc (suc (suc (suc off)))))) 0
          ∷ get_or pkt (suc (suc (suc (suc (suc off))))) 0
          ∷ get_or pkt (suc (suc (suc (suc off)))) 0
          ∷ get_or pkt (suc (suc (suc off))) 0
          ∷ get_or pkt (suc (suc off)) 0
          ∷ get_or pkt (suc off) 0
          ∷ get_or pkt off 0
          ∷ []
  unfolding be_bytes host_at be_at be_from le_at
  eight_little off = ground (
    arith,
    b off,
    b (suc off),
    b (suc (suc off)),
    b (suc (suc (suc off))),
    b (suc (suc (suc (suc off)))),
    b (suc (suc (suc (suc (suc off))))),
    b (suc (suc (suc (suc (suc (suc off)))))),
    b (suc (suc (suc (suc (suc (suc (suc off))))))),
  )

  two_big :
      (off : ℕ)
      → be_bytes 2 (host_at big 2 pkt off) ≡ get_or pkt off 0 ∷ get_or pkt (suc off) 0 ∷ []
  unfolding be_bytes host_at be_at be_from le_at
  two_big off = ground (arith, b off, b (suc off))

  four_big :
      (off : ℕ)
      → be_bytes 4 (host_at big 4 pkt off)
        ≡ get_or pkt off 0
          ∷ get_or pkt (suc off) 0
          ∷ get_or pkt (suc (suc off)) 0
          ∷ get_or pkt (suc (suc (suc off))) 0
          ∷ []
  unfolding be_bytes host_at be_at be_from le_at
  four_big off = ground (arith, b off, b (suc off), b (suc (suc off)), b (suc (suc (suc off))))

  eight_big :
      (off : ℕ)
      → be_bytes 8 (host_at big 8 pkt off)
        ≡ get_or pkt off 0
          ∷ get_or pkt (suc off) 0
          ∷ get_or pkt (suc (suc off)) 0
          ∷ get_or pkt (suc (suc (suc off))) 0
          ∷ get_or pkt (suc (suc (suc (suc off)))) 0
          ∷ get_or pkt (suc (suc (suc (suc (suc off))))) 0
          ∷ get_or pkt (suc (suc (suc (suc (suc (suc off)))))) 0
          ∷ get_or pkt (suc (suc (suc (suc (suc (suc (suc off))))))) 0
          ∷ []
  unfolding be_bytes host_at be_at be_from le_at
  eight_big off = ground (
    arith,
    b off,
    b (suc off),
    b (suc (suc off)),
    b (suc (suc (suc off))),
    b (suc (suc (suc (suc off)))),
    b (suc (suc (suc (suc (suc off))))),
    b (suc (suc (suc (suc (suc (suc off)))))),
    b (suc (suc (suc (suc (suc (suc (suc off))))))),
  )

  readdress_straight : (conn_id : ℕ) → readdress big pkt conn_id ≡ addressed big pkt conn_id
  unfolding readdress overlay hdr_pack addressed places be_bytes
  readdress_straight conn_id =
      let same : be_bytes 4 conn_id ≡ be_bytes 4 conn_id = refl in
      ap (λ h. h ++ drop header_size pkt)
        (ap₂ ◌++◌ (four_big 0) (
          ap₂ ◌++◌ (two_big 4) (
            ap₂ ◌++◌ (two_big 6) (
              ap₂ ◌++◌ (four_big 8) (
                ap₂ ◌++◌ (four_big 12) (
                  ap₂ ◌++◌ (eight_big 16) (ap₂ ◌++◌ (two_big 24) (ap₂ ◌++◌ (two_big 26) same))))))))

  readdress_turned : (conn_id : ℕ) → readdress little pkt conn_id ≡ addressed little pkt conn_id
  unfolding readdress overlay hdr_pack addressed places be_bytes
  readdress_turned conn_id =
      let same : be_bytes 4 conn_id ≡ be_bytes 4 conn_id = refl in
      ap (λ h. h ++ drop header_size pkt)
        (ap₂ ◌++◌ (four_little 0) (
          ap₂ ◌++◌ (two_little 4) (
            ap₂ ◌++◌ (two_little 6) (
              ap₂ ◌++◌ (four_little 8) (
                ap₂ ◌++◌ (four_little 12) (
                  ap₂ ◌++◌ (eight_little 16)
                    (ap₂ ◌++◌ (two_little 24) (ap₂ ◌++◌ (two_little 26) same))))))))

  pub readdress-addressed :
      (e : Endian) (conn_id : ℕ) → readdress e pkt conn_id ≡ addressed e pkt conn_id
  readdress-addressed big conn_id = readdress_straight conn_id
  readdress-addressed little conn_id = readdress_turned conn_id
