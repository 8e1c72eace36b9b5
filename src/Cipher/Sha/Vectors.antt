-- ===== src/Cipher/Sha/Vectors.antt =====
-- SHA-256 of include/crypto.h at a vector of the standard.
use robov.Prelude.{ℕ, ◌≡◌, refl, List, [], ◌∷◌}
use robov.Proto.Bytes.{be_bytes, be_at}
use robov.Cipher.Sha.{sha256, words_bytes, transform, absorb}

-- The text `abc`.
abbrev abc : List ℕ
abc = 97 ∷ 98 ∷ 99 ∷ []

-- The hash of `abc`, as the standard gives it.
sha256-abc :
    sha256 abc
    ≡ 0xba ∷ 0x78 ∷ 0x16 ∷ 0xbf ∷ 0x8f ∷ 0x01 ∷ 0xcf ∷ 0xea ∷ 0x41 ∷ 0x41 ∷ 0x40 ∷ 0xde ∷ 0x5d
      ∷ 0xae ∷ 0x22 ∷ 0x23 ∷ 0xb0 ∷ 0x03 ∷ 0x61 ∷ 0xa3 ∷ 0x96 ∷ 0x17 ∷ 0x7a ∷ 0x9c ∷ 0xb4 ∷ 0x10
      ∷ 0xff ∷ 0x61 ∷ 0xf2 ∷ 0x00 ∷ 0x15 ∷ 0xad ∷ []
unfolding sha256 words_bytes transform absorb be_bytes be_at
sha256-abc = refl
