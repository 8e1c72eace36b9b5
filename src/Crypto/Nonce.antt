-- ===== src/Crypto/Nonce.antt =====
-- `rc_derive_nonce`: which counters give which nonces.
use robov.Prelude.{
  ℕ, zero, suc, ◌/◌, ◌%◌, ◌^◌, ◌<◌, ◌≡◌, ap, List, [], ◌∷◌, ◌++◌, arith, take, get_or, drop,
}
use native.Mathlib.Nat.{div-lt_iff_lt-mul, pow-suc}
use robov.Crypto.{store_be, derive_nonce}

below : (k c : ℕ) → c < 256 ^ suc k → c / 256 < 256 ^ k
below k c h = (div-lt_iff_lt-mul (omega arith)).1 (omega (arith, h, pow-suc 256 k))

-- Equal bytes were stored for equal numbers, before equal bytes.
pub store_be_cancel :
    (k c d : ℕ) (xs ys : List ℕ)
    → c < 256 ^ k
    → d < 256 ^ k
    → store_be k c xs ≡ store_be k d ys
    → (c ≡ d) × (xs ≡ ys)
unfolding store_be
store_be_cancel zero c d xs ys hc hd e = (omega (arith, hc, hd), e)
store_be_cancel (suc k) c d xs ys hc hd e =
    let ih =
      store_be_cancel k (c / 256) (d / 256) (c % 256 ∷ xs) (d % 256 ∷ ys) (below k c hc)
        (below k d hd) e in
    (omega (arith, ih.0, ap (λ l. get_or l 0 0) ih.1), ap (drop 1) ih.1)

append_cancel : (us xs ys : List ℕ) → us ++ xs ≡ us ++ ys → xs ≡ ys
append_cancel [] xs ys e = e
append_cancel (u ∷ us) xs ys e = append_cancel us xs ys (ap (drop 1) e)

-- Under one salt, two counters below 2 ^ 64 that give the same nonce are equal.
pub derive_nonce-injective :
    (salt : List ℕ) (c d : ℕ)
    → c < 2 ^ 64
    → d < 2 ^ 64
    → derive_nonce salt c ≡ derive_nonce salt d
    → c ≡ d
unfolding derive_nonce
derive_nonce-injective salt c d hc hd e =
    (store_be_cancel 8 c d [] [] (omega arith) (omega arith)
      (append_cancel (take 4 salt) (store_be 8 c []) (store_be 8 d []) e)).0
