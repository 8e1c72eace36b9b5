-- ===== src/Cipher/Keys/Compare.antt =====
-- `rc_secure_compare` of include/crypto.h.
use robov.Prelude.{
  ℕ, zero, suc, ◌≡◌, ◌==◌, ==_iff, ◌↔◌, ◌⊎◌, inl, inr, Bool-cases, refl, sym, ap, ◌∙◌, List, drop,
  get_or, arith, length, bit_or, bit_xor, u8, if_true, if_false,
}
use robov.Handshake.Server.{verify_diff}
use robov.Handshake.Verify.{Bytes, verify_diff-zero, verify_diff_self}
use robov.Cipher.Keys.{compare_diff, secure_compare}

-- The loop is that of the handshake.
compare_diff-eq : (n : ℕ) (a b : List ℕ) (d : ℕ) → compare_diff n a b d ≡ verify_diff n a b d
unfolding compare_diff verify_diff
compare_diff-eq zero a b d = refl
compare_diff-eq (suc n) a b d =
    compare_diff-eq n (drop 1 a) (drop 1 b) (u8 (bit_or d (bit_xor (get_or a 0 0) (get_or b 0 0))))

-- The comparison of two arrays of bytes of the same length, over that length, returns 0 if they are
-- equal and 1 if they are not.
pub secure_compare_iff :
    (a b : List ℕ)
    → length b ≡ length a
    → Bytes a
    → Bytes b
    → ((secure_compare a b (length a) ≡ 0) ↔ (a ≡ b))
      × ((secure_compare a b (length a) ≡ 0) ⊎ (secure_compare a b (length a) ≡ 1))
unfolding secure_compare
secure_compare_iff a b l ba bb = (
  (found, same),
  elim (Bool-cases (diff == 0)) [ inl e ↦ inl (if_true 0 1 e) | inr e ↦ inr (if_false 0 1 e) ],
)
  where
    diff : ℕ
    diff = compare_diff (length a) a b 0

    found : secure_compare a b (length a) ≡ 0 → a ≡ b
    found h = elim (Bool-cases (diff == 0)) [
      | inl e ↦
          (verify_diff-zero a b 0 l ba bb (omega arith)
            (sym (compare_diff-eq (length a) a b 0) ∙ (==_iff diff 0).0 e)).1
      | inr e ↦ absurd (omega (arith, h, if_false {A = ℕ} 0 1 e))
    ]

    same : a ≡ b → secure_compare a b (length a) ≡ 0
    same e = if_true 0 1 (
        (==_iff diff 0).1 (
          compare_diff-eq (length a) a b 0
          ∙ ap (λ c. verify_diff (length a) a c 0) (sym e)
          ∙ verify_diff_self a))
