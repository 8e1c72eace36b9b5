-- ===== src/Retransmit/Ack.antt =====
-- `rc_retx_process_ack` and `rc_retx_process_sack` on the queue that the state stands for.
use robov.Prelude.{
  ap₂, ◌||◌, ◌&&◌, not, leb, min, Bool, ℕ, suc, ◌≤◌, ◌<◌, ◌≡◌, refl, ap, ◌∙◌, false, List, [], ◌∷◌,
  map, arith, if◌then◌else◌, ltb, take, All,
}
use robov.Retransmit.{
  Entry, SackBlock, RetxState, blank, newly_acked, mark_acked, track_dup, process_ack, newly_sacked,
  mark_sacked, in_blocks, process_sack, max_sack_blocks,
}
use robov.Retransmit.Slots.{sweep, count_if, length-sweep, slots-sweep, sweep_hits}
use robov.Retransmit.Queue.{queue, IsValid, drop_acked, drain-lem}

-- The state after the first loop of `rc_retx_process_ack`.
marked : RetxState → ℕ → RetxState
marked s ack_seq = record s {
  entries = (sweep blank (mark_acked ack_seq) (newly_acked ack_seq) s.count s.head s.entries 0).0;
}

marked-IsValid : (s : RetxState) (ack_seq : ℕ) → IsValid s → IsValid (marked s ack_seq)
unfolding marked
marked-IsValid s ack_seq v = record {
  slots_all =
      length-sweep blank (mark_acked ack_seq) (newly_acked ack_seq) s.count s.head s.entries 0
      ∙ v.slots_all;
  count_in = v.count_in;
  head_in = v.head_in;
  tail_at = v.tail_at;
}

queue-marked :
    (s : RetxState) (ack_seq : ℕ)
    → IsValid s
    → queue (marked s ack_seq) ≡ map (mark_acked ack_seq) (queue s)
unfolding marked queue
queue-marked s ack_seq v =
    slots-sweep blank (mark_acked ack_seq) (newly_acked ack_seq) s.count s.head s.entries 0
      v.slots_all v.count_in

track_dup-IsValid : (n a : ℕ) (s : RetxState) → IsValid s → IsValid (track_dup n a s)
unfolding track_dup
track_dup-IsValid n a s v = ground arith

queue-track_dup : (n a : ℕ) (s : RetxState) → queue (track_dup n a s) ≡ queue s
unfolding track_dup queue
queue-track_dup n a s = ground arith

process_ack_maps :
    (s : RetxState) (ack_seq : ℕ)
    → IsValid s
    → let (acked, s') = process_ack s ack_seq in
      IsValid s'
      × (queue s' ≡ drop_acked (map (mark_acked ack_seq) (queue s)))
      × (acked ≡ count_if (newly_acked ack_seq) (queue s))
unfolding process_ack marked
process_ack_maps s ack_seq v =
    let d = drain-lem s.count (marked s ack_seq) refl (marked-IsValid s ack_seq v) in
    (
      track_dup-IsValid _ ack_seq _ d.0,
      queue-track_dup _ ack_seq _ ∙ d.1 ∙ ap drop_acked (queue-marked s ack_seq v),
      unfold queue in
          sweep_hits blank (mark_acked ack_seq) (newly_acked ack_seq) s.count s.head s.entries
            v.slots_all v.count_in,
    )

map_same : (f g : Entry → Entry) (es : List Entry) → ((e : Entry) → f e ≡ g e) → map f es ≡ map g es
map_same f g [] h = refl
map_same f g (e ∷ es) h = ap₂ ◌∷◌ (h e) (map_same f g es h)

mark_acked-eq :
    (ack_seq : ℕ) (e : Entry)
    → mark_acked ack_seq e ≡ record e { acked = e.acked || leb e.seq ack_seq }
unfolding mark_acked newly_acked
mark_acked-eq ack_seq e = ground arith

-- On a well-formed queue `rc_retx_process_ack` counts the entries with a number up to `ack_seq` that were
-- not acknowledged, marks them, drops the acknowledged entries at the front, and leaves the queue well
-- formed.
pub process_ack_refines :
    (s : RetxState) (ack_seq : ℕ)
    → IsValid s
    → let (acked, s') = process_ack s ack_seq in
      IsValid s'
      × (queue s'
          ≡ drop_acked (
              map {A = Entry} {B = Entry}
                (λ e. record e { acked = e.acked || leb e.seq ack_seq })
                (queue s)))
      × (acked ≡ count_if (λ e. not e.acked && leb e.seq ack_seq) (queue s))
unfolding newly_acked
process_ack_refines s ack_seq v =
    let (valid, kept, hits) = process_ack_maps s ack_seq v in
    (
      valid,
      kept ∙ ap drop_acked (map_same (mark_acked ack_seq) _ (queue s) (mark_acked-eq ack_seq)),
      hits,
    )

-- The sequence numbers increase from one entry to the next.
abbrev pub Increasing : ℕ → List Entry → Type 0
Increasing low [] = Unit
Increasing low (e ∷ es) = (low ≤ e.seq) × Increasing (suc e.seq) es

-- The entries beyond a sequence number.
pub beyond : ℕ → List Entry → List Entry
beyond ack_seq [] = []
beyond ack_seq (e ∷ es) =
    let rest = beyond ack_seq es in if ltb ack_seq e.seq then e ∷ rest else rest

beyond_all :
    (ack_seq low : ℕ) (es : List Entry)
    → ack_seq < low
    → Increasing low es
    → (beyond ack_seq es ≡ es) × (map (mark_acked ack_seq) es ≡ es)
unfolding beyond mark_acked newly_acked
beyond_all ack_seq low [] h i = (refl, refl)
beyond_all ack_seq low (e ∷ es) h i =
    let r = beyond_all ack_seq (suc e.seq) es (omega arith) i.1 in (ground arith, ground arith)

drop-eq-beyond :
    (ack_seq low : ℕ) (es : List Entry)
    → Increasing low es
    → All (λ e. e.acked ≡ false) es
    → drop_acked (map (mark_acked ack_seq) es) ≡ beyond ack_seq es
unfolding beyond mark_acked newly_acked drop_acked
drop-eq-beyond ack_seq low [] i a = refl
drop-eq-beyond ack_seq low (e ∷ es) i a =
    ground (arith, drop-eq-beyond ack_seq (suc e.seq) es i.1 a.1, beyond_all ack_seq (suc e.seq) es)

-- On a well-formed queue in increasing order of sequence numbers with nothing acknowledged, a
-- cumulative acknowledgement leaves exactly the entries beyond it.
pub process_ack_cumulative :
    (s : RetxState) (ack_seq : ℕ)
    → IsValid s
    → Increasing 0 (queue s)
    → All (λ e. e.acked ≡ false) (queue s)
    → queue (process_ack s ack_seq).1 ≡ beyond ack_seq (queue s)
process_ack_cumulative s ack_seq v i a =
    (process_ack_maps s ack_seq v).1 ∙ drop-eq-beyond ack_seq 0 (queue s) i a

process_sack_maps :
    (s : RetxState) (blocks : List SackBlock) (count : ℕ)
    → IsValid s
    → let (sacked, s') = process_sack s blocks count in
      let used = take (if ltb max_sack_blocks count then max_sack_blocks else count) blocks in
      IsValid s'
      × (queue s' ≡ map (mark_sacked used) (queue s))
      × (sacked ≡ count_if (newly_sacked used) (queue s))
unfolding process_sack queue
process_sack_maps s blocks count v =
    let used = take (if ltb max_sack_blocks count then max_sack_blocks else count) blocks in
    (
      record {
        slots_all =
            length-sweep blank (mark_sacked used) (newly_sacked used) s.count s.head s.entries 0
            ∙ v.slots_all;
        count_in = v.count_in;
        head_in = v.head_in;
        tail_at = v.tail_at;
      },
      slots-sweep blank (mark_sacked used) (newly_sacked used) s.count s.head s.entries 0
          v.slots_all v.count_in,
      sweep_hits blank (mark_sacked used) (newly_sacked used) s.count s.head s.entries v.slots_all
          v.count_in,
    )

-- How many of the blocks hold a sequence number: from the left edge on, below the right edge.
abbrev pub holding : List SackBlock → ℕ → ℕ
holding blocks seq = count_if (λ b. leb b.left_edge seq && ltb seq b.right_edge) blocks

in_blocks-eq :
    (blocks : List SackBlock) (seq : ℕ) → in_blocks blocks seq ≡ ltb 0 (holding blocks seq)
unfolding in_blocks count_if
in_blocks-eq [] seq = refl
in_blocks-eq (b ∷ blocks) seq = ground (arith, in_blocks-eq blocks seq)

mark_sacked-eq :
    (blocks : List SackBlock) (e : Entry)
    → mark_sacked blocks e
      ≡ record e { sacked = e.sacked || (not e.acked && ltb 0 (holding blocks e.seq)) }
unfolding mark_sacked newly_sacked
mark_sacked-eq blocks e = ground (arith, in_blocks-eq blocks e.seq)

count_same :
    (f g : Entry → Bool) (es : List Entry)
    → ((e : Entry) → f e ≡ g e)
    → count_if f es ≡ count_if g es
unfolding count_if
count_same f g [] h = refl
count_same f g (e ∷ es) h = ground (arith, h e, count_same f g es h)

-- On a well-formed queue `rc_retx_process_sack` marks and counts the entries that were neither
-- acknowledged nor marked and whose number lies in one of the first four blocks, from its left edge on and
-- below its right edge; it keeps the order and the length, and leaves the queue well formed.
pub process_sack_refines :
    (s : RetxState) (blocks : List SackBlock) (count : ℕ)
    → IsValid s
    → let (sacked, s') = process_sack s blocks count in
      let used = take (min count 4) blocks in
      IsValid s'
      × (queue s'
          ≡ map {A = Entry} {B = Entry}
              (λ e. record e { sacked = e.sacked || (not e.acked && ltb 0 (holding used e.seq)) })
              (queue s))
      × (sacked ≡ count_if (λ e. not (e.acked || e.sacked) && ltb 0 (holding used e.seq)) (queue s))
unfolding newly_sacked
process_sack_refines s blocks count v =
    let (valid, kept, hits) = process_sack_maps s blocks count v in
    let limit : (if ltb max_sack_blocks count then max_sack_blocks else count) ≡ min count 4 =
      ground arith in
    let used : List SackBlock = take (min count 4) blocks in
    (
      valid,
      kept
          ∙ ap (λ n. map (mark_sacked (take n blocks)) (queue s)) limit
          ∙ map_same (mark_sacked used) _ (queue s) (mark_sacked-eq used),
      hits
          ∙ ap (λ n. count_if (newly_sacked (take n blocks)) (queue s)) limit
          ∙ count_same (newly_sacked used) _ (queue s)
              (λ e. ap (λ c. not (e.acked || e.sacked) && c) (in_blocks-eq used e.seq)),
    )
