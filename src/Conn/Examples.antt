-- ===== src/Conn/Examples.antt =====
-- A connection and a pool with one connection.
use robov.Prelude.{
  ◌+◌, ◌%◌, ◌^◌, false, not, leb, ◌≡◌, refl, true, none, some, List, [], ◌∷◌, ◌&&◌, ◌==◌,
  if◌then◌else◌, length,
}
use robov.Conn.{
  Conn, ConnState, closed, connecting, handshaking, established, null, TimeVal, is_state, set_state,
  valid_transition,
}
use robov.Conn.Machine.{Call, set, run, call, Settled, established_by_handshake}
use robov.Conn.Pool.{ConnPool, Outcome, pool_init, create, lookup, no_ring, found}
use robov.Conn.Pool.Links.{Held}
use robov.Conn.Pool.Lookup.{pool_init-IsValid, lookup-Held}
use robov.Conn.Pool.Create.{create-IsValid, create_refines, admits, requested}

abbrev noon : TimeVal
noon = record { tv_sec = 100; tv_usec = 10 }

abbrev conn : ConnState → Conn
conn s = record {
  conn_id = 5;
  fd = some 3;
  state = s;
  refcnt = 1;
  send_buf = no_ring;
  recv_buf = no_ring;
  last_recv = noon;
  rto_ms = 200;
  user_data = null;
  on_state = false;
}

abbrev good : Outcome
good = record { calloc_conn = true; mutex_init = true; calloc_send = true; calloc_recv = true }

-- A pool with the connection 5.
abbrev pool : ConnPool
pool = (create good noon (pool_init 8) (some 3) 5).1

abbrev calls : List Call
calls = set connecting ∷ set handshaking ∷ set established ∷ []

established_by_handshake_example : Settled (conn closed) calls
unfolding run call set_state valid_transition is_state
established_by_handshake_example = established_by_handshake (conn closed) calls (λ e. cc) refl

create_refines_example :
    let (made, pool') = create good noon pool (some 4) 0 in
    (made ≡ (if admits good pool then some (length pool.conns) else none))
    × ((lookup pool' 1).0 ≡ (
        if admits good pool && (requested pool 0 == 1)
        then found (length pool.conns)
        else (lookup pool 1).0))
    × (pool'.next_id ≡ (
        if (0 == 0) && (not (leb pool.max_conn pool.count) && true)
        then (pool.next_id + 1) % 2 ^ 32
        else pool.next_id))
create_refines_example =
    create_refines good noon pool (some 4) 0 1
      (create-IsValid good noon (pool_init 8) (some 3) 5 (pool_init-IsValid 8))

lookup-Held_example : Held pool.conns 5 (lookup pool 5).0
lookup-Held_example =
    lookup-Held pool 5 (create-IsValid good noon (pool_init 8) (some 3) 5 (pool_init-IsValid 8))
