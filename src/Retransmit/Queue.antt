-- ===== src/Retransmit/Queue.antt =====
-- The queue that the circular array of `rc_retx_state_t` stands for, and what enqueueing and the two
-- kinds of acknowledgement do to it.
use robov.Prelude.{
  ℕ, zero, suc, ◌+◌, ◌%◌, ◌^◌, ◌≤◌, ◌<◌, ◌≡◌, refl, sym, ap, ap₂, ◌∙◌, Bool, ◌&&◌, List, [], ◌∷◌,
  ◌++◌, arith, if◌then◌else◌, ltb, false, true, some, take, length, get_or, set, length-set,
  length-replicate, add32, sub32, Bool-cases, inl, inr,
}
use robov.Retransmit.{Entry, RetxState, blank, ok, failed, create, filled, enqueue, drain, release}
use robov.Retransmit.Slots.{
  queue_max, slot, slots, length-slots, slots-set, get_or-set_self, get_or-set_ne,
}

-- The entries in flight, the oldest first.
unfoldable pub queue : RetxState → List Entry
queue s = slots blank s.entries s.head s.count

-- The array has its 4096 slots, at most that many are in use, and `tail` stands `count` after `head`.
pub record IsValid (s : RetxState) : Type 0 where
  pub slots_all : length s.entries ≡ queue_max
  pub count_in : s.count ≤ queue_max
  pub head_in : s.head < 2 ^ 32
  pub tail_at : s.tail ≡ (s.head + s.count) % 2 ^ 32

pub create-IsValid : IsValid create
unfolding create
create-IsValid = record {
  slots_all = length-replicate queue_max blank;
  count_in = omega arith;
  head_in = omega arith;
  tail_at = refl;
}

pub length-queue : (s : RetxState) → length (queue s) ≡ s.count
unfolding queue
length-queue s = length-slots blank s.entries s.head s.count

-- A new entry in the slot after the last one.
slots-snoc :
    (es : List Entry) (idx n : ℕ) (e : Entry)
    → length es ≡ queue_max
    → n < queue_max
    → slots blank (set es ((idx + n) % queue_max) e) idx (suc n) ≡ slots blank es idx n ++ e ∷ []
unfolding slots
slots-snoc es idx zero e l h =
    ap (λ x. x ∷ [])
      (ap (λ i. get_or (set es i e) (idx % queue_max) blank) {y = idx % queue_max} (omega arith)
        ∙ get_or-set_self es (idx % queue_max) e blank (omega arith))
slots-snoc es idx (suc n) e l h =
    ap₂ ◌∷◌
      (get_or-set_ne es ((idx + suc n) % queue_max) (idx % queue_max) e blank
        (λ p. absurd (omega (arith, p))))
      (ap (λ i. slots blank (set es i e) (add32 idx 1) (suc n)) {y = (add32 idx 1 + n) % queue_max}
          (omega arith)
        ∙ slots-snoc es (add32 idx 1) n e l (omega arith))

enqueue_stores :
    (alloc : Bool) (now : ℕ) (s : RetxState) (seq : ℕ) (bytes : List ℕ) (len rto : ℕ)
    → IsValid s
    → let (r, s') = enqueue alloc now s seq bytes len rto in
      let taken = ltb s.count queue_max && alloc in
      (r ≡ (if taken then ok else failed))
      × (queue s' ≡ (
          if taken
          then queue s ++ filled alloc now seq bytes len rto (slot blank s.entries s.tail) ∷ []
          else queue s))
unfolding enqueue queue
enqueue_stores alloc now s seq bytes len rto v =
    let e = filled alloc now seq bytes len rto (slot blank s.entries s.tail) in
    let at : s.tail % queue_max ≡ (s.head + s.count) % queue_max = omega (arith, v.tail_at) in
    let kept : s.count < queue_max
        → slots blank (set s.entries (s.tail % queue_max) e) s.head s.count
          ≡ slots blank s.entries s.head s.count =
      λ h.
        slots-set blank s.entries (s.tail % queue_max) s.head s.count e
          (λ k b p. absurd (omega (arith, at, p))) in
    let last : s.count < queue_max
        → slots blank (set s.entries (s.tail % queue_max) e) s.head (suc s.count)
          ≡ slots blank s.entries s.head s.count ++ e ∷ [] =
      λ h.
        ap (λ i. slots blank (set s.entries i e) s.head (suc s.count)) at
        ∙ slots-snoc s.entries s.head s.count e v.slots_all h in
    (ground arith, ground (arith, kept, last))

-- What a caller sees of `rc_retx_enqueue` on a well-formed queue: a packet that is taken stands at
-- the end of the queue, with its number, the time, its timeout and its bytes, neither acknowledged nor
-- marked, and the payload length that the slot held before; neither a full queue nor a failed allocation
-- changes the queue.
pub enqueue_refines :
    (alloc : Bool) (now : ℕ) (s : RetxState) (seq : ℕ) (bytes : List ℕ) (len rto : ℕ)
    → IsValid s
    → let (r, s') = enqueue alloc now s seq bytes len rto in
      let taken = ltb s.count queue_max && alloc in
      let last : Entry = record {
        seq = seq;
        sent_ts_ms = now % 2 ^ 32;
        rto_ms = rto;
        payload_len = (slot blank s.entries s.tail).payload_len;
        acked = false;
        sacked = false;
        pkt_data = some (take len bytes);
        pkt_len = len;
      } in
      (r ≡ (if taken then ok else failed))
      × (queue s' ≡ (if taken then queue s ++ last ∷ [] else queue s))
unfolding filled
enqueue_refines true now s seq bytes len rto v = enqueue_stores true now s seq bytes len rto v
enqueue_refines false now s seq bytes len rto v =
    let (r, q) = enqueue_stores false now s seq bytes len rto v in (r, ground (arith, q))

pub enqueue-IsValid :
    (alloc : Bool) (now : ℕ) (s : RetxState) (seq : ℕ) (bytes : List ℕ) (len rto : ℕ)
    → IsValid s
    → IsValid (enqueue alloc now s seq bytes len rto).1
unfolding enqueue
enqueue-IsValid alloc now s seq bytes len rto v = ground (
  arith,
  length-set s.entries (s.tail % queue_max)
      (filled alloc now seq bytes len rto (slot blank s.entries s.tail)),
)

-- `drain` drops the acknowledged entries at the front.
unfoldable pub drop_acked : List Entry → List Entry
drop_acked [] = []
drop_acked (e ∷ es) = let rest = drop_acked es in if e.acked then rest else e ∷ es

release-IsValid : (n : ℕ) (s : RetxState) → s.count ≡ suc n → IsValid s → IsValid (release s)
unfolding release
release-IsValid n s c v = record {
  slots_all = length-set s.entries (s.head % queue_max) _ ∙ v.slots_all;
  count_in = omega (arith, c, v.count_in);
  head_in = omega arith;
  tail_at = omega (arith, c, v.tail_at, v.count_in);
}

queue-release :
    (n : ℕ) (s : RetxState)
    → s.count ≡ suc n
    → IsValid s
    → (queue s ≡ slot blank s.entries s.head ∷ queue (release s)) × ((release s).count ≡ n)
unfolding release queue slots
queue-release n s c v = (
  ap (slots blank s.entries s.head) c
      ∙ ap (λ q. slot blank s.entries s.head ∷ q)
          (sym (
            ap (slots blank _ (add32 s.head 1)) less
            ∙ slots-set blank s.entries (s.head % queue_max) (add32 s.head 1) n _
                (λ k b p. absurd (omega (arith, p, c, v.count_in))))),
  less,
)
  where
    less : sub32 s.count 1 ≡ n
    less = omega (arith, c, v.count_in)

queue_none : (s : RetxState) → s.count ≡ 0 → queue s ≡ []
unfolding queue slots
queue_none s c = ap (slots blank s.entries s.head) c

pub drain-lem :
    (n : ℕ) (s : RetxState)
    → s.count ≡ n
    → IsValid s
    → IsValid (drain n s) × (queue (drain n s) ≡ drop_acked (queue s))
unfolding drain drop_acked
drain-lem zero s c v = (v, rw (queue_none s c))
drain-lem (suc n) s c v = elim (Bool-cases (slot blank s.entries s.head).acked) [
  | inl e ↦
      let (q, k) = queue-release n s c v in
      let (w, d) = drain-lem n (release s) k (release-IsValid n s c v) in (rw e w, rw (e, q, e) d)
  | inr e ↦ let (q, k) = queue-release n s c v in (rw e v, rw (e, q, e))
]
