-- ===== src/Cipher/Sha/Blocks.antt =====
-- The blocks and the partial block of SHA-256 in include/crypto.h.
use robov.Prelude.{
  ℕ, zero, suc, ◌+◌, ◌-◌, ◌*◌, ◌≤◌, ◌≡◌, refl, sym, ap, ap₂, ◌∙◌, List, [], ◌∷◌, ◌++◌, append_assoc,
  arith, length, length-append, length-take, length-drop, length-replicate, take, drop, replicate,
  take_all, take-length-append,
}
use robov.Proto.Bytes.{be_bytes}
use robov.Cipher.Sha.{Words, transform, absorb, fill, last_block, words_bytes}

pub drop-drop : (a b : ℕ) (xs : List ℕ) → drop a (drop b xs) ≡ drop (a + b) xs
drop-drop a zero xs = let same : a ≡ a + 0 = omega arith in ap (λ k. drop k xs) same
drop-drop a (suc b) [] = drop_nil a ∙ sym (drop_nil (a + suc b))
  where
    drop_nil : (n : ℕ) → drop {A = ℕ} n [] ≡ []
    drop_nil zero = refl
    drop_nil (suc n) = refl
drop-drop a (suc b) (x ∷ xs) =
    let same : suc (a + b) ≡ a + suc b = omega arith in
    drop-drop a b xs ∙ ap (λ k. drop k (x ∷ xs)) same

pub take-append : (n : ℕ) (xs ys : List ℕ) → n ≤ length xs → take n (xs ++ ys) ≡ take n xs
take-append zero xs ys h = refl
take-append (suc n) [] ys h = absurd (omega (arith, h))
take-append (suc n) (x ∷ xs) ys h = ap (λ l. x ∷ l) (take-append n xs ys (omega (arith, h)))

pub drop-append : (n : ℕ) (xs ys : List ℕ) → n ≤ length xs → drop n (xs ++ ys) ≡ drop n xs ++ ys
drop-append zero xs ys h = refl
drop-append (suc n) [] ys h = absurd (omega (arith, h))
drop-append (suc n) (x ∷ xs) ys h = drop-append n xs ys (omega (arith, h))

-- What follows the blocks does not matter.
pub absorb-append :
    (n : ℕ) (s : Words) (xs ys : List ℕ)
    → n * 64 ≤ length xs
    → absorb n s (xs ++ ys) ≡ absorb n s xs
unfolding absorb
absorb-append zero s xs ys h = refl
absorb-append (suc n) s xs ys h =
    ap₂ (λ b r. absorb n (transform s b) r) (take-append 64 xs ys (omega (arith, h)))
      (drop-append 64 xs ys (omega (arith, h)))
    ∙ absorb-append n (transform s (take 64 xs)) (drop 64 xs) ys
        (omega (arith, h, length-drop 64 xs))

-- Blocks after blocks.
pub absorb-add :
    (m n : ℕ) (s : Words) (xs : List ℕ)
    → absorb (m + n) s xs ≡ absorb m (absorb n s xs) (drop (n * 64) xs)
unfolding absorb
absorb-add m zero s xs = let same : m + 0 ≡ m = omega arith in ap (λ k. absorb k s xs) same
absorb-add m (suc n) s xs =
    let rounds : m + suc n ≡ suc (m + n) = omega arith in
    let bytes : n * 64 + 64 ≡ suc n * 64 = omega arith in
    ap (λ k. absorb k s xs) rounds
    ∙ absorb-add m n (transform s (take 64 xs)) (drop 64 xs)
    ∙ ap (absorb m (absorb n (transform s (take 64 xs)) (drop 64 xs)))
        (drop-drop (n * 64) 64 xs ∙ ap (λ k. drop k xs) bytes)

-- Writing behind the first `pos` bytes of a buffer.
module _ (b : List ℕ) (pos : ℕ) (bytes : List ℕ) where
  pub take-fill :
      pos ≤ length b → take (pos + length bytes) (fill b pos bytes) ≡ take pos b ++ bytes
  unfolding fill
  take-fill h =
      let front : length (take pos b ++ bytes) ≡ pos + length bytes =
        omega (arith, length-append (take pos b) bytes, length-take pos b, h) in
      ap₂ take (sym front) (sym (append_assoc (take pos b) bytes (drop (pos + length bytes) b)))
      ∙ take-length-append (take pos b ++ bytes) (drop (pos + length bytes) b)

  pub length-fill : pos + length bytes ≤ length b → length (fill b pos bytes) ≡ length b
  unfolding fill
  length-fill h = omega (
    arith,
    length-append (take pos b) (bytes ++ drop (pos + length bytes) b),
    length-append bytes (drop (pos + length bytes) b),
    length-take pos b,
    length-drop (pos + length bytes) b,
    h,
  )

-- A full buffer is what was written last behind what stood before.
pub fill_full :
    (b : List ℕ) (pos : ℕ) (bytes : List ℕ)
    → length b ≡ 64
    → pos + length bytes ≡ 64
    → fill b pos bytes ≡ take pos b ++ bytes
fill_full b pos bytes h e =
    sym (take_all (fill b pos bytes))
    ∙ ap (λ n. take n (fill b pos bytes))
        (length-fill b pos bytes (omega (arith, h, e)) ∙ h ∙ sym e)
    ∙ take-fill b pos bytes (omega (arith, h, e))

-- The last block depends on the first `idx` bytes of the buffer only.
pub last_block-eq :
    (s : Words) (b1 b2 : List ℕ) (idx bits : ℕ)
    → length b1 ≡ 64
    → length b2 ≡ 64
    → idx ≤ 56
    → take idx b1 ≡ take idx b2
    → last_block s b1 idx bits ≡ last_block s b2 idx bits
unfolding last_block be_bytes
last_block-eq s b1 b2 idx bits h1 h2 i e =
    ap (λ b. words_bytes (transform s b))
      (full b1 h1 ∙ ap (λ t. (t ++ zeros) ++ be_bytes 8 bits) e ∙ sym (full b2 h2))
  where
    zeros : List ℕ
    zeros = replicate (56 - idx) 0

    count : length zeros ≡ 56 - idx
    count = length-replicate (56 - idx) 0

    full :
        (b : List ℕ)
        → length b ≡ 64
        → fill (fill b idx zeros) 56 (be_bytes 8 bits) ≡ (take idx b ++ zeros) ++ be_bytes 8 bits
    full b h =
        let upto : 56 ≡ idx + length zeros = omega (arith, i, count) in
        fill_full (fill b idx zeros) 56 (be_bytes 8 bits)
          (length-fill b idx zeros (omega (arith, h, i, count)) ∙ h) refl
        ∙ ap (λ t. t ++ be_bytes 8 bits)
            (ap (λ n. take n (fill b idx zeros)) upto ∙ take-fill b idx zeros (omega (arith, h, i)))
