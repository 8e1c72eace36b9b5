-- ===== src/Conn/Pool.antt =====
-- The connection pool of src/core/rc_conn.c: a hash table whose chains run through `user_data`. The
-- connections stand in the order of their allocation, and a pointer is a position there: the code frees
-- none before it destroys the pool. Each call holds its lock while it walks, so calls are atomic here.
pub mod Links
pub mod Lookup
pub mod Create
pub mod Purge
use robov.Prelude.{
  ℕ, zero, suc, ◌+◌, ◌-◌, ◌*◌, ◌/◌, ◌%◌, ◌^◌, Bool, true, false, not, ◌&&◌, ◌||◌, Option, none,
  some, List, [], ◌∷◌, ◌++◌, if◌then◌else◌, ltb, leb, ◌==◌, length, get_elem?, set, bit_xor, add32,
  mul32, add64, sub64, mul64,
}
use robov.Ring
use robov.Ring.{Ring}
use robov.Conn.{
  ConnState, closed, Conn, UserData, null, chain, context, TimeVal, Event, is_state, close, release,
}

abbrev pub max_connections : ℕ
max_connections = 10000000

abbrev pub pool_buckets : ℕ
pool_buckets = 16777259

abbrev pub pool_locks : ℕ
pool_locks = 8192

-- `rc_conn_pool_t`, with the static `next_id` of `rc_conn_create`.
pub record ConnPool : Type 0 where
  pub conns : List Conn
  pub buckets : ℕ → UserData
  pub count : ℕ
  pub max_conn : ℕ
  pub next_id : ℕ

-- `conn_hash`
pub conn_hash : ℕ → ℕ
conn_hash key0 =
    let key1 = bit_xor key0 (key0 / 2 ^ 16) in
    let key2 = mul32 key1 0x85EBCA6B in
    let key3 = bit_xor key2 (key2 / 2 ^ 13) in
    let key4 = mul32 key3 0xC2B2AE35 in bit_xor key4 (key4 / 2 ^ 16)

pub bucket_of : ℕ → ℕ
unfolding conn_hash
bucket_of conn_id = conn_hash conn_id % pool_buckets

-- `rc_conn_pool_init`, where the allocation and the locks succeed.
pub pool_init : ℕ → ConnPool
pool_init max_conn = record {
  conns = [];
  buckets = λ b. null;
  count = 0;
  max_conn = if max_conn == 0 then max_connections else max_conn;
  next_id = 1;
}

-- Which of the calls that `rc_conn_create` makes succeed.
pub record Outcome : Type 0 where
  pub calloc_conn : Bool
  pub mutex_init : Bool
  pub calloc_send : Bool
  pub calloc_recv : Bool

abbrev pub no_ring : Ring
no_ring = record { buf = []; size = 0; mask = 0; head = 0; tail = 0 }

pub new_conn : ℕ → Option ℕ → TimeVal → UserData → Conn
new_conn conn_id fd now next = record {
  conn_id = conn_id;
  fd = fd;
  state = closed;
  refcnt = 1;
  send_buf = (Ring.init true no_ring 65536).1;
  recv_buf = (Ring.init true no_ring 65536).1;
  last_recv = now;
  rto_ms = 200;
  user_data = next;
  on_state = false;
}

abbrev pub update : (ℕ → UserData) → ℕ → UserData → ℕ → UserData
update f b u k = if b == k then u else f k

-- The new connection goes to the front of its chain.
pub insert : Conn → ConnPool → ConnPool
unfolding bucket_of
insert c pool = record pool {
  conns = pool.conns ++ c ∷ [];
  buckets = update pool.buckets (bucket_of c.conn_id) (chain (length pool.conns));
  count = add64 pool.count 1;
}

-- `rc_conn_create`: the new connection's position, if there is one.
pub create : Outcome → TimeVal → ConnPool → Option ℕ → ℕ → Option ℕ × ConnPool
unfolding new_conn insert
create o now pool fd conn_id0 =
    if leb pool.max_conn pool.count || not o.calloc_conn
    then (none, pool)
    else let conn_id = if conn_id0 == 0 then pool.next_id else conn_id0 in
      let pool' = record pool {
        next_id = if conn_id0 == 0 then add32 pool.next_id 1 else pool.next_id;
      } in
      if not o.mutex_init || not (o.calloc_send && o.calloc_recv) then (none, pool') else (
        some (length pool.conns),
        insert (new_conn conn_id fd now (pool.buckets (bucket_of conn_id))) pool',
      )

-- How the walk along a chain ends: at a connection, at the end, at something that is no connection, or
-- not within the fuel.
pub data Walk : Type 0 where
  found : ℕ → Walk
  absent fault endless : Walk

pub walk : ℕ → List Conn → UserData → ℕ → Walk
walk zero conns u conn_id = endless
walk (suc n) conns null conn_id = absent
walk (suc n) conns context conn_id = fault
walk (suc n) conns (chain p) conn_id = elim (get_elem? conns p) [
  | none ↦ fault
  | some c ↦
      let rest = walk n conns c.user_data conn_id in if c.conn_id == conn_id then found p else rest
]

abbrev pub retained : Conn → Conn
retained c = record c { refcnt = add32 c.refcnt 1 }

pub modify : List Conn → ℕ → (Conn → Conn) → List Conn
modify [] p f = []
modify (c ∷ conns) zero f = f c ∷ conns
modify (c ∷ conns) (suc p) f = c ∷ modify conns p f

-- What a search finds gains a reference.
pub retain : ConnPool → Walk → ConnPool
unfolding modify
retain pool (found p) = record pool { conns = modify pool.conns p retained }
retain pool _ = pool

-- `rc_conn_lookup`. The fuel is one more than the connections.
pub lookup : ConnPool → ℕ → Walk × ConnPool
unfolding walk bucket_of retain
lookup pool conn_id =
    let w = walk (suc (length pool.conns)) pool.conns (pool.buckets (bucket_of conn_id)) conn_id in
    (w, retain pool w)

-- `idle_ms` of `rc_conn_purge_timeouts`. The differences are taken in `time_t` and `suseconds_t` and
-- then cast to `uint64_t`, so a negative one wraps.
pub idle_ms : TimeVal → TimeVal → ℕ
idle_ms now last =
    add64 (mul64 (sub64 now.tv_sec last.tv_sec) 1000) (sub64 now.tv_usec last.tv_usec / 1000)

-- The test of `rc_conn_purge_timeouts`.
pub is_stale : TimeVal → ℕ → Conn → Bool
unfolding idle_ms
is_stale now timeout_ms c =
    ltb timeout_ms (idle_ms now c.last_recv) && not (is_state c.state closed)

-- The inner loop over one chain: the link that takes the chain's place, the connections, and how many
-- were closed. `none` is a fault.
pub purge_chain : ℕ → List Conn → UserData → TimeVal → ℕ → Option (UserData × List Conn × ℕ)
unfolding is_stale modify
purge_chain zero conns u now timeout_ms = none
purge_chain (suc n) conns null now timeout_ms = some (null, conns, 0)
purge_chain (suc n) conns context now timeout_ms = none
purge_chain (suc n) conns (chain p) now timeout_ms = elim (get_elem? conns p) [
  | none ↦ none
  | some c ↦ elim (is_stale now timeout_ms c) [
    | true ↦ elim (purge_chain n (set conns p (release (close c).1)) c.user_data now timeout_ms) [
      | none ↦ none
      | some (u, conns', k) ↦ some (u, conns', k + 1)
    ]
    | false ↦ elim (purge_chain n conns c.user_data now timeout_ms) [
      | none ↦ none
      | some (u, conns', k) ↦ some (chain p, modify conns' p (λ d. record d { user_data = u }), k)
    ]
  ]
]

-- The pool once bucket `i` is purged, where `k` connections left it.
abbrev pub swept : ConnPool → ℕ → UserData → List Conn → ℕ → ConnPool
swept pool i u conns k = record pool {
  conns = conns;
  buckets = update pool.buckets i u;
  count = sub64 pool.count k;
}

abbrev pub add_purged : ℕ → Option (ℕ × ConnPool) → Option (ℕ × ConnPool)
add_purged k none = none
add_purged k (some (purged, pool)) = some (k + purged, pool)

-- `n` rounds of the outer loop of `rc_conn_purge_timeouts`, from bucket `i` on. It locks `locks[i]`,
-- and there are 8192 locks: taking one beyond them is a fault.
pub purge_buckets : ℕ → ℕ → ConnPool → TimeVal → ℕ → Option (ℕ × ConnPool)
unfolding purge_chain
purge_buckets zero i pool now timeout_ms = some (0, pool)
purge_buckets (suc n) i pool now timeout_ms = elim (leb pool_locks i) [
  | true ↦ none
  | false ↦
      elim (purge_chain (suc (length pool.conns)) pool.conns (pool.buckets i) now timeout_ms) [
        | none ↦ none
        | some (u, conns', k) ↦
            add_purged k (purge_buckets n (i + 1) (swept pool i u conns' k) now timeout_ms)
      ]
]

-- `rc_conn_purge_timeouts`
pub purge_timeouts : ConnPool → TimeVal → ℕ → Option (ℕ × ConnPool)
purge_timeouts pool now timeout_ms = purge_buckets pool_buckets 0 pool now timeout_ms
