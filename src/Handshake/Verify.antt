-- ===== src/Handshake/Verify.antt =====
-- The comparison of `rc_handshake_process_finish`.
use robov.Prelude.{
  ℕ, ◌<◌, ◌≡◌, ◌==◌, ==_iff, true, ◌↔◌, refl, sym, ap, ap₂, ◌∙◌, List, [], ◌∷◌, arith, length, All,
  bit_or, bit_xor, u8,
}
use robov.Prelude.Bits.{or-lt, xor-lt, or-eq_zero, xor-eq_zero, xor_self}
use robov.Proto.Bytes.{all_bytes}
use robov.Handshake.Server.{verify_diff, verify_ok}

abbrev pub Bytes : List ℕ → Type 0
Bytes = All (λ b. b < 256)

-- The test of `Bytes` on a given list.
pub all_bytes-Bytes : (xs : List ℕ) → all_bytes xs ≡ true → Bytes xs
unfolding all_bytes
all_bytes-Bytes [] h = tt
all_bytes-Bytes (x ∷ xs) h = (ground (arith, h), all_bytes-Bytes xs (ground (arith, h)))

pub verify_diff-zero :
    (es vs : List ℕ) (d : ℕ)
    → length vs ≡ length es
    → Bytes es
    → Bytes vs
    → d < 256
    → verify_diff (length es) es vs d ≡ 0
    → (d ≡ 0) × (es ≡ vs)
unfolding verify_diff
verify_diff-zero [] [] d l be bv h e = (e, refl)
verify_diff-zero [] (v ∷ vs) d l be bv h e = absurd (omega (arith, l))
verify_diff-zero (x ∷ es) [] d l be bv h e = absurd (omega (arith, l))
verify_diff-zero (x ∷ es) (v ∷ vs) d l be bv h e =
    let small = or-lt 8 d (bit_xor x v) h (xor-lt 8 x v be.0 bv.0) in
    let ih =
      verify_diff-zero es vs (u8 (bit_or d (bit_xor x v))) (omega (arith, l)) be.1 bv.1
        (omega arith) e in
    let none_set = or-eq_zero d (bit_xor x v) (omega (arith, small, ih.0)) in
    (none_set.0, ap₂ ◌∷◌ (xor-eq_zero x v none_set.1) ih.1)

pub verify_diff_self : (es : List ℕ) → verify_diff (length es) es es 0 ≡ 0
unfolding verify_diff
verify_diff_self [] = refl
verify_diff_self (x ∷ es) =
    ap (λ d. verify_diff (length es) es es (u8 (bit_or 0 d))) (xor_self x) ∙ verify_diff_self es

-- The comparison of two arrays of 32 bytes, which always reads them to the end, finds no difference
-- exactly if the arrays are equal.
pub verify_ok_iff :
    (es vs : List ℕ)
    → length es ≡ 32
    → length vs ≡ 32
    → Bytes es
    → Bytes vs
    → (verify_ok es vs ≡ true) ↔ (es ≡ vs)
unfolding verify_ok
verify_ok_iff es vs le lv be bv = (found, same)
  where
    found : (verify_diff 32 es vs 0 == 0) ≡ true → es ≡ vs
    found e =
        (verify_diff-zero es vs 0 (omega (arith, le, lv)) be bv (omega arith)
          (ap (λ n. verify_diff n es vs 0) le ∙ (==_iff (verify_diff 32 es vs 0) 0).0 e)).1

    same : es ≡ vs → (verify_diff 32 es vs 0 == 0) ≡ true
    same q = (==_iff (verify_diff 32 es vs 0) 0).1 (
        sym (ap (λ ws. verify_diff 32 es ws 0) q)
        ∙ sym (ap (λ n. verify_diff n es es 0) le)
        ∙ verify_diff_self es)
