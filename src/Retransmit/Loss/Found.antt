-- ===== src/Retransmit/Loss/Found.antt =====
-- What `rc_retx_detect_loss` reports: how much, of which entries, and what it may not miss.
use robov.Prelude.{
  ℕ, ◌+◌, ◌≤◌, ◌<◌, ◌≡◌, refl, ◌⊎◌, inl, inr, true, false, ◌&&◌, none, some, List, [], ◌∷◌, ◌++◌,
  arith, if◌then◌else◌, ltb, leb, length, length-append, take, All, Bool-cases,
}
use robov.Retransmit.{Entry, SackBlock, RetxState, dup_ack_thresh}
use robov.Retransmit.Queue.{queue, IsValid}
use robov.Retransmit.Loss.{pending, age_ms, in_hole, has, timed_out, detect_loss}
use robov.Retransmit.Loss.Scan.{first_beyond, holes, timeouts, fast_found, found, detect_loss-found}

-- Some entry of the queue that is neither acknowledged nor marked has this number.
abbrev pub Awaits : List Entry → ℕ → Type 0
Awaits [] seq = ⊥
Awaits (e ∷ es) seq = ((pending e ≡ true) × (e.seq ≡ seq)) ⊎ Awaits es seq

length_snoc : (xs : List ℕ) (x : ℕ) → length (xs ++ x ∷ []) ≡ length xs + 1
length_snoc xs x = length-append xs (x ∷ [])

length-holes :
    (es : List Entry) (blocks : List SackBlock) (now m : ℕ) (out : List ℕ)
    → length out ≤ m
    → length (holes es blocks now m out) ≤ m
unfolding holes
length-holes [] blocks now m out h = h
length-holes (e ∷ es) blocks now m out h = ground (
  arith,
  length-holes es blocks now m out,
  length-holes es blocks now m (out ++ e.seq ∷ []),
  length_snoc out e.seq,
)

length-timeouts :
    (es : List Entry) (now m : ℕ) (out : List ℕ)
    → length out ≤ m
    → length (timeouts es now m out) ≤ m
unfolding timeouts
length-timeouts [] now m out h = h
length-timeouts (e ∷ es) now m out h = ground (
  arith,
  length-timeouts es now m out,
  length-timeouts es now m (out ++ e.seq ∷ []),
  length_snoc out e.seq,
)

-- No more numbers are stored than the caller has room for.
pub length-detect_loss :
    (s : RetxState) (now m : ℕ) → IsValid s → length (detect_loss s now m).0 ≤ m
unfolding found
length-detect_loss s now m v =
    rw (detect_loss-found s now m v)
      (length-timeouts (queue s) now m _ (start (Bool-cases (ltb 0 s.sack_count))))
  where
    fast : length (fast_found s m) ≤ m
    fast = ground arith

    start :
        ((ltb 0 s.sack_count ≡ true) ⊎ (ltb 0 s.sack_count ≡ false))
        → length (
            if ltb 0 s.sack_count
            then holes (queue s) (take s.sack_count s.sack_blocks) now m (fast_found s m)
            else fast_found s m)
          ≤ m
    start (inl e) = rw e (length-holes (queue s) _ now m (fast_found s m) fast)
    start (inr e) = rw e fast

module _ (P : ℕ → Type 0) where
  All-snoc : (xs : List ℕ) (x : ℕ) → All P xs → P x → All P (xs ++ x ∷ [])
  All-snoc [] x h p = (p, tt)
  All-snoc (y ∷ xs) x h p = (h.0, All-snoc xs x h.1 p)

  abbrev PendingHave : List Entry → Type 0
  PendingHave es = All (λ e. pending e ≡ true → P e.seq) es

  holes-All :
      (es : List Entry) (blocks : List SackBlock) (now m : ℕ) (out : List ℕ)
      → PendingHave es
      → All P out
      → All P (holes es blocks now m out)
  unfolding holes in_hole
  holes-All [] blocks now m out h k = k
  holes-All (e ∷ es) blocks now m out h k = elim (Bool-cases (ltb (length out) m)) [
    | inr full ↦ rw full k
    | inl room ↦ elim (Bool-cases (in_hole blocks now e)) [
      | inl hit ↦
          rw (room, hit)
            (holes-All es blocks now m (out ++ e.seq ∷ []) h.1
              (All-snoc out e.seq k (h.0 (ground arith))))
      | inr miss ↦ rw (room, miss) (holes-All es blocks now m out h.1 k)
    ]
  ]

  timeouts-All :
      (es : List Entry) (now m : ℕ) (out : List ℕ)
      → PendingHave es
      → All P out
      → All P (timeouts es now m out)
  unfolding timeouts timed_out
  timeouts-All [] now m out h k = k
  timeouts-All (e ∷ es) now m out h k = elim (Bool-cases (ltb (length out) m)) [
    | inr full ↦ rw full k
    | inl room ↦ elim (Bool-cases (timed_out out now e)) [
      | inl hit ↦
          rw (room, hit)
            (timeouts-All es now m (out ++ e.seq ∷ []) h.1
              (All-snoc out e.seq k (h.0 (ground arith))))
      | inr miss ↦ rw (room, miss) (timeouts-All es now m out h.1 k)
    ]
  ]

  first_beyond-All :
      (es : List Entry) (d : ℕ)
      → PendingHave es
      → All P (elim (first_beyond es d) [ none ↦ [] | some seq ↦ seq ∷ [] ])
  unfolding first_beyond
  first_beyond-All [] d h = tt
  first_beyond-All (e ∷ es) d h = elim (Bool-cases (pending e && ltb d e.seq)) [
    | inl hit ↦ rw hit (h.0 (ground arith), tt)
    | inr miss ↦ rw miss (first_beyond-All es d h.1)
  ]

has-snoc : (xs : List ℕ) (x y : ℕ) → has xs y ≡ true → has (xs ++ x ∷ []) y ≡ true
unfolding has
has-snoc [] x y h = ground arith
has-snoc (z ∷ xs) x y h = ground (arith, has-snoc xs x y)

has-snoc_self : (xs : List ℕ) (x : ℕ) → has (xs ++ x ∷ []) x ≡ true
unfolding has
has-snoc_self [] x = ground arith
has-snoc_self (z ∷ xs) x = ground (arith, has-snoc_self xs x)

timeouts-has :
    (es : List Entry) (now m : ℕ) (out : List ℕ) (y : ℕ)
    → has out y ≡ true
    → has (timeouts es now m out) y ≡ true
unfolding timeouts
timeouts-has [] now m out y h = h
timeouts-has (e ∷ es) now m out y h = ground (
  arith,
  timeouts-has es now m out y,
  timeouts-has es now m (out ++ e.seq ∷ []) y,
  has-snoc out e.seq y,
)

-- Some entry that awaits its acknowledgement and is at least its timeout old has this number.
abbrev pub Overdue : ℕ → List Entry → ℕ → Type 0
Overdue now [] seq = ⊥
Overdue now (e ∷ es) seq =
    ((pending e ≡ true) × (e.rto_ms ≤ age_ms now e) × (e.seq ≡ seq)) ⊎ Overdue now es seq

timeouts_complete :
    (es : List Entry) (now m : ℕ) (out : List ℕ) (seq : ℕ)
    → length (timeouts es now m out) < m
    → Overdue now es seq
    → has (timeouts es now m out) seq ≡ true
unfolding timeouts
timeouts_complete [] now m out seq h o = absurd o
timeouts_complete (e ∷ es) now m out seq h (inr o) = ground (
  arith,
  timeouts_complete es now m out seq,
  timeouts_complete es now m (out ++ e.seq ∷ []) seq,
  o,
)
timeouts_complete (e ∷ es) now m out seq h (inl o) =
    unfold timed_out in
    ground (
      arith,
      timeouts-has es now m out seq,
      timeouts-has es now m (out ++ e.seq ∷ []) seq,
      has-snoc_self out e.seq,
      o,
    )

-- On a well-formed queue, where the caller's array does not fill up, `rc_retx_detect_loss` reports
-- the number of every packet that is neither acknowledged nor marked and at least its timeout old.
pub detect_loss_complete :
    (s : RetxState) (now m seq : ℕ)
    → IsValid s
    → length (detect_loss s now m).0 < m
    → Overdue now (queue s) seq
    → has (detect_loss s now m).0 seq ≡ true
unfolding found
detect_loss_complete s now m seq v h o =
    rw (detect_loss-found s now m v)
      (timeouts_complete (queue s) now m _ seq (rw (detect_loss-found s now m v) at h) o)

Awaits-all :
    (es all : List Entry)
    → ((seq : ℕ) → Awaits es seq → Awaits all seq)
    → PendingHave (Awaits all) es
Awaits-all [] all h = tt
Awaits-all (e ∷ es) all h =
    (λ p. h e.seq (inl (p, refl)), Awaits-all es all (λ seq a. h seq (inr a)))

-- On a well-formed queue `rc_retx_detect_loss` reports only packets of the queue that are neither
-- acknowledged nor marked.
pub detect_loss-Awaits :
    (s : RetxState) (now m : ℕ) → IsValid s → All (Awaits (queue s)) (detect_loss s now m).0
unfolding found fast_found
detect_loss-Awaits s now m v = rw (detect_loss-found s now m v) (
    timeouts-All (Awaits (queue s)) (queue s) now m _ have
      (start (Bool-cases (ltb 0 s.sack_count))))
  where
    have : PendingHave (Awaits (queue s)) (queue s)
    have = Awaits-all (queue s) (queue s) (λ seq a. a)

    fast : All (Awaits (queue s)) (fast_found s m)
    fast = elim (Bool-cases (leb dup_ack_thresh s.dup_ack_count && ltb 0 m)) [
      | inl e ↦ rw e (first_beyond-All (Awaits (queue s)) (queue s) s.dup_ack_seq have)
      | inr e ↦ rw e tt
    ]

    start :
        ((ltb 0 s.sack_count ≡ true) ⊎ (ltb 0 s.sack_count ≡ false))
        → All (Awaits (queue s)) (
            if ltb 0 s.sack_count
            then holes (queue s) (take s.sack_count s.sack_blocks) now m (fast_found s m)
            else fast_found s m)
    start (inl e) = rw e (holes-All (Awaits (queue s)) (queue s) _ now m (fast_found s m) have fast)
    start (inr e) = rw e fast
