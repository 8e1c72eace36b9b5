-- ===== src/Spsc/Life.antt =====
-- The ring of include/ringbuf.h from its initialisation on, under any sequence of calls.
use robov.Prelude.{
  ℕ, zero, suc, ◌+◌, ◌-◌, ◌*◌, ◌^◌, ◌≤◌, ◌<◌, ◌≡◌, refl, sym, ◌∙◌, ap, ◌⊎◌, inl, inr, true, Option,
  some, List, [], ◌∷◌, arith, length-replicate, ltb, Bool-cases, if_true, if_false, u64,
}
use mathlib.Core.Path.{subst}
use native.Mathlib.Nat.{pow-le-pow_right, pow-suc, one-le-pow}
use native.Mathlib.Decide.{dec_lt}
use robov.Ring.PowTwo.{pow_add}
use robov.Spsc.{Spsc, Initialized, ready, double_up, allocate, initialize, used, offer, poll, reset}
use robov.Spsc.Fifo.{IsSound, held, held_none, queue_offer, queue_poll, offer_lem, poll_lem}

-- A call of `rc_ringbuf_write`, `rc_ringbuf_read` or `rc_ringbuf_reset`.
pub data Call : Type 0 where
  put : List ℕ → Call
  get : ℕ → Call
  clear : Call

-- A call on a ring: the count that a write returns and the bytes that a read gives, and the ring.
pub call : Spsc → Call → (ℕ × List ℕ) × Spsc
call r (put bytes) = (((offer r bytes).0, []), (offer r bytes).1)
call r (get n) = ((0, (poll r n).0), (poll r n).1)
call r clear = ((0, []), reset r)

-- The same call on the queue of at most `cap` bytes.
unfoldable pub queue_call : ℕ → List ℕ → Call → (ℕ × List ℕ) × List ℕ
unfolding queue_offer queue_poll
queue_call cap q (put bytes) = (((queue_offer cap q bytes).0, []), (queue_offer cap q bytes).1)
queue_call cap q (get n) = ((0, (queue_poll q n).0), (queue_poll q n).1)
queue_call cap q clear = ((0, []), [])

pub calls : Spsc → List Call → List (ℕ × List ℕ) × Spsc
calls r [] = ([], r)
calls r (c ∷ cs) = let s = call r c in let t = calls s.1 cs in (s.0 ∷ t.0, t.1)

unfoldable pub queue_calls : ℕ → List ℕ → List Call → List (ℕ × List ℕ) × List ℕ
unfolding queue_call
queue_calls cap q [] = ([], q)
queue_calls cap q (c ∷ cs) =
    let s = queue_call cap q c in let t = queue_calls cap s.1 cs in (s.0 ∷ t.0, t.1)

abbrev Answers : Type 0
Answers = List (ℕ × List ℕ)

reset-IsSound : (r : Spsc) → IsSound r → IsSound (reset r)
unfolding reset used
reset-IsSound r v = record {
  bits = v.bits;
  cofactor = v.cofactor;
  size_pow = v.size_pow;
  divides = v.divides;
  size_pos = v.size_pos;
  size_in = v.size_in;
  mask_good = v.mask_good;
  storage = v.storage;
  head_in = omega arith;
  tail_in = omega arith;
  fits = omega arith;
}

call-IsSound : (r : Spsc) (c : Call) → IsSound r → IsSound (call r c).1
unfolding call
call-IsSound r (put bytes) v = (offer_lem v bytes).0
call-IsSound r (get n) v = (poll_lem v n).0
call-IsSound r clear v = reset-IsSound r v

call-size : (r : Spsc) (c : Call) → IsSound r → (call r c).1.size ≡ r.size
unfolding call reset
call-size r (put bytes) v = (offer_lem v bytes).1
call-size r (get n) v = (poll_lem v n).1
call-size r clear v = refl

call_refines :
    (r : Spsc) (c : Call)
    → IsSound r
    → ◌≡◌ {A = (ℕ × List ℕ) × List ℕ}
        ((call r c).0, held (call r c).1)
        (queue_call r.size (held r) c)
unfolding call queue_call queue_offer queue_poll reset used
call_refines r (put bytes) v = ap (λ (o : ℕ × List ℕ). ((o.0, []), o.1)) (offer_lem v bytes).2
call_refines r (get n) v = ap (λ (o : List ℕ × List ℕ). ((0, o.0), o.1)) (poll_lem v n).2
call_refines r clear v = ap (λ q. ((0, []), q)) (held_none (reset r) refl)

-- From a sound ring, whatever the sequence of writes, reads and resets, each call answers as the call
-- on the queue of the bytes held does, where a write is taken whole or refused whole, and at the end
-- the ring holds the bytes of that queue.
pub calls_refine :
    (r : Spsc) (cs : List Call)
    → IsSound r
    → ◌≡◌ {A = List (ℕ × List ℕ) × List ℕ}
        ((calls r cs).0, held (calls r cs).1)
        (queue_calls r.size (held r) cs)
unfolding calls queue_calls
calls_refine r [] v = refl
calls_refine r (c ∷ cs) v =
    let s = call r c in
    ap (λ (o : Answers × List ℕ). (s.0 ∷ o.0, o.1))
      (calls_refine s.1 cs (call-IsSound r c v)
        ∙ ap (λ z. queue_calls z (held s.1) cs) (call-size r c v))
    ∙ ap
        (λ (o : (ℕ × List ℕ) × List ℕ).
          (o.0 ∷ (queue_calls r.size o.1 cs).0, (queue_calls r.size o.1 cs).1))
        (call_refines r c v)

-- The size that the loop of `rc_ringbuf_init` finds.
record Found (size : ℕ) (o : Option ℕ) : Type 0 where
  bits : ℕ
  found : o ≡ some (2 ^ bits)
  small : bits ≤ 63
  enough : size ≤ 2 ^ bits
  least : (2 ^ bits < 2 * size) ⊎ (bits ≡ 0)

double_up-Found :
    (n j size : ℕ)
    → n + j ≡ 65
    → size ≤ 2 ^ 63
    → j ≤ 63
    → (2 ^ j < 2 * size) ⊎ (j ≡ 0)
    → Found size (double_up n (2 ^ j) size)
unfolding double_up
double_up-Found zero j size e h below least = absurd (omega (arith, e, below))
double_up-Found (suc n) j size e h below least = elim (Bool-cases (ltb (2 ^ j) size)) [
  | inl less ↦
      let lt : suc j ≤ 63 = further (ground (arith, less)) in
      let double : 2 ^ suc j ≡ 2 ^ j * 2 = pow-suc 2 j in
      let fits : 2 ^ suc j ≤ 2 ^ 63 = pow-le-pow_right {n = 2} (omega arith) lt in
      let step : u64 (2 ^ j * 2) ≡ 2 ^ suc j = omega (arith, double, fits) in
      subst (Found size) (sym (if_true _ _ less ∙ ap (λ s. double_up n s size) step)) (
        double_up-Found n (suc j) size (omega (arith, e)) h lt (inl (ground (arith, less, double))))
  | inr enough ↦ subst (Found size) (sym (if_false _ _ enough)) (record {
    bits = j;
    found = refl;
    small = below;
    enough = ground (arith, enough);
    least = least;
  })
]
  where
    further : 2 ^ j < size → suc j ≤ 63
    further less = elim (dec_lt j 63) [
      | yes lt ↦ lt
      | no ge ↦
          let at_end : j ≡ 63 = omega (arith, ge, below) in
          absurd (omega (arith, less, h, ap (λ (k : ℕ). 2 ^ k) at_end))
    ]

-- A ring that is ready for at least `size` bytes.
pub record IsReady (size : ℕ) (o : Initialized × Spsc) : Type 0 where
  pub answer : o.0 ≡ ready
  pub sound : IsSound o.1
  pub empty : held o.1 ≡ []
  pub enough : size ≤ o.1.size
  pub least : (o.1.size < 2 * size) ⊎ (o.1.size ≡ 1)

allocate-IsReady :
    (rb : Spsc) (size : ℕ) (o : Option ℕ) → Found size o → IsReady size (allocate true rb o)
unfolding allocate used
allocate-IsReady rb size o f =
    let positive : 1 ≤ 2 ^ f.bits = one-le-pow f.bits 2 (omega arith) in
    let below : 2 ^ f.bits ≤ 2 ^ 63 = pow-le-pow_right {n = 2} (omega arith) f.small in
    subst (λ x. IsReady size (allocate true rb x)) (sym f.found)
      (record {
        answer = refl;
        sound = record {
          bits = f.bits;
          cofactor = 2 ^ (64 - f.bits);
          size_pow = refl;
          divides =
              sym (pow_add f.bits (64 - f.bits))
              ∙ ap (λ (n : ℕ). 2 ^ n) {y = 64} (omega (arith, f.small));
          size_pos = omega (arith, positive);
          size_in = omega (arith, below);
          mask_good = refl;
          storage = length-replicate (2 ^ f.bits) 0;
          head_in = omega arith;
          tail_in = omega arith;
          fits = omega arith;
        };
        empty = held_none _ refl;
        enough = f.enough;
        least = elim f.least [ inl l ↦ inl l | inr z ↦ inr (ap (λ (k : ℕ). 2 ^ k) z) ];
      })

-- Where the allocation succeeds, for a size up to 2 ^ 63 the loop of `rc_ringbuf_init` ends and the
-- ring is ready, sound and empty, of the least power of two that is not below the size.
pub initialize-IsReady :
    (rb : Spsc) (size : ℕ) → size ≤ 2 ^ 63 → IsReady size (initialize true rb size)
unfolding initialize
initialize-IsReady rb size h =
    allocate-IsReady rb size (double_up 65 1 size)
      (double_up-Found 65 0 size (omega arith) h (omega arith) (inr refl))
