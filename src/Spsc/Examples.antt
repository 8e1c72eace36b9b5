-- ===== src/Spsc/Examples.antt =====
-- The ring of include/ringbuf.h at small sizes.
use robov.Prelude.{ℕ, ◌≡◌, refl, List, [], ◌∷◌, true, arith}
use robov.Spsc.{Spsc, initialize}
use robov.Spsc.Fifo.{held}
use robov.Spsc.Life.{
  IsReady, Call, put, get, clear, calls, queue_calls, initialize-IsReady, calls_refine,
}

abbrev blank : Spsc
blank = record {
  buf = [];
  size = 0;
  mask = 0;
  head = 0;
  tail = 0;
  bytes_written = 0;
  bytes_read = 0;
  drops = 0;
}

-- A ring of four bytes.
abbrev four : Spsc
four = (initialize true blank 3).1

initialize-IsReady_example : IsReady 3 (initialize true blank 3)
initialize-IsReady_example = initialize-IsReady blank 3 (omega arith)

-- A write that fits, one that does not, a read, and a write that goes round the end.
abbrev steps : List Call
steps = put (1 ∷ 2 ∷ 3 ∷ []) ∷ put (4 ∷ 5 ∷ []) ∷ get 2 ∷ put (6 ∷ 7 ∷ []) ∷ get 9 ∷ clear ∷ []

calls_refine_example :
    ◌≡◌ {A = List (ℕ × List ℕ) × List ℕ}
      ((calls four steps).0, held (calls four steps).1)
      (queue_calls four.size (held four) steps)
calls_refine_example =
    let fresh = initialize-IsReady blank 3 (omega arith) in calls_refine four steps fresh.sound

-- What the queue answers to them.
answers :
    queue_calls 4 [] steps
    ≡ ((3, []) ∷ (0, []) ∷ (0, 1 ∷ 2 ∷ []) ∷ (2, []) ∷ (0, 3 ∷ 6 ∷ 7 ∷ []) ∷ (0, []) ∷ [], [])
unfolding queue_calls
answers = refl
