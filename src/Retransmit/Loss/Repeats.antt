-- ===== src/Retransmit/Loss/Repeats.antt =====
-- A number that `rc_retx_detect_loss` reports twice.
use robov.Prelude.{
  ℕ, ◌≤◌, ◌<◌, ◌≡◌, sym, ◌∙◌, inl, inr, true, List, [], ◌∷◌, ◌++◌, arith, ltb, length, take,
  Bool-cases, append_assoc, append-nil, lt→ltb,
}
use robov.Retransmit.{Entry, SackBlock, RetxState, dup_ack_thresh}
use robov.Retransmit.Queue.{queue, IsValid}
use robov.Retransmit.Loss.{in_hole, timed_out, detect_loss}
use robov.Retransmit.Loss.Scan.{first_beyond, holes, timeouts, fast_found, found, detect_loss-found}

abbrev Extends : List ℕ → List ℕ → Type 0
Extends out res = (more : List ℕ) × (res ≡ out ++ more)

Extends-trans : (xs : List ℕ) (x : ℕ) (res : List ℕ) → Extends (xs ++ x ∷ []) res → Extends xs res
Extends-trans xs x res (more, e) = (x ∷ more, e ∙ append_assoc xs (x ∷ []) more)

Extends-refl : (xs : List ℕ) → Extends xs xs
Extends-refl xs = ([], sym (append-nil xs))

holes-Extends :
    (es : List Entry) (blocks : List SackBlock) (now m : ℕ) (out : List ℕ)
    → Extends out (holes es blocks now m out)
unfolding holes
holes-Extends [] blocks now m out = Extends-refl out
holes-Extends (e ∷ es) blocks now m out = elim (Bool-cases (ltb (length out) m)) [
  | inr full ↦ rw full (Extends-refl out)
  | inl room ↦ elim (Bool-cases (in_hole blocks now e)) [
    | inl hit ↦
        rw (room, hit)
          (Extends-trans out e.seq _ (holes-Extends es blocks now m (out ++ e.seq ∷ [])))
    | inr miss ↦ rw (room, miss) (holes-Extends es blocks now m out)
  ]
]

timeouts-Extends :
    (es : List Entry) (now m : ℕ) (out : List ℕ) → Extends out (timeouts es now m out)
unfolding timeouts
timeouts-Extends [] now m out = Extends-refl out
timeouts-Extends (e ∷ es) now m out = elim (Bool-cases (ltb (length out) m)) [
  | inr full ↦ rw full (Extends-refl out)
  | inl room ↦ elim (Bool-cases (timed_out out now e)) [
    | inl hit ↦
        rw (room, hit) (Extends-trans out e.seq _ (timeouts-Extends es now m (out ++ e.seq ∷ [])))
    | inr miss ↦ rw (room, miss) (timeouts-Extends es now m out)
  ]
]

-- On a well-formed queue whose first entry lies beyond the number acknowledged three times or more
-- and in a hole of the blocks stored, with room for two, `rc_retx_detect_loss` reports that
-- entry's number twice.
pub detect_loss_repeats :
    (s : RetxState) (now m : ℕ) (e : Entry) (es : List Entry)
    → IsValid s
    → queue s ≡ e ∷ es
    → dup_ack_thresh ≤ s.dup_ack_count
    → s.dup_ack_seq < e.seq
    → 0 < s.sack_count
    → in_hole (take s.sack_count s.sack_blocks) now e ≡ true
    → 2 ≤ m
    → (more : List ℕ) × ((detect_loss s now m).0 ≡ e.seq ∷ (e.seq ∷ more))
detect_loss_repeats s now m e es v q d lt c hole two =
    let blocks = take s.sack_count s.sack_blocks in
    let fast : fast_found s m ≡ e.seq ∷ [] =
      unfold fast_found first_beyond in unfold in_hole in ground (arith, q) in
    let twice : holes (e ∷ es) blocks now m (e.seq ∷ [])
        ≡ holes es blocks now m (e.seq ∷ (e.seq ∷ [])) =
      unfold holes in ground arith in
    let (more, p) = holes-Extends es blocks now m (e.seq ∷ (e.seq ∷ [])) in
    let (rest, r) = timeouts-Extends (queue s) now m (e.seq ∷ (e.seq ∷ more)) in
    (
      more ++ rest,
      detect_loss-found s now m v
          ∙ unfold found in rw (lt→ltb 0 s.sack_count c, fast, q, twice, p) (rw q at r),
    )
