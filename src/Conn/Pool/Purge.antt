-- ===== src/Conn/Pool/Purge.antt =====
-- What `rc_conn_purge_timeouts` does to the pool's locks, and to a connection that has just received.
use robov.Prelude.{
  ℕ, zero, suc, ◌+◌, ◌^◌, ◌≤◌, ◌<◌, ◌≡◌, refl, ap, Bool, true, false, Option, none, some, List,
  arith, leb, length,
}
use robov.Conn.{Conn, TimeVal, UserData, closed, is_state}
use robov.Conn.Pool.{
  ConnPool, pool_buckets, pool_locks, swept, add_purged, purge_chain, purge_buckets, purge_timeouts,
  idle_ms, is_stale,
}

past_locks :
    (n i : ℕ) (pool : ConnPool) (now : TimeVal) (timeout_ms : ℕ)
    → pool_locks < i + n
    → i ≤ pool_locks
    → purge_buckets n i pool now timeout_ms ≡ none
unfolding purge_buckets
past_locks zero i pool now timeout_ms h k = absurd (omega (arith, h, k))
past_locks (suc n) i pool now timeout_ms h k =
    at (λ p q. past_locks n (i + 1) p now timeout_ms (omega (arith, h)) (omega (arith, q)))
      (leb pool_locks i) refl
  where
    next :
        (r : Option (UserData × List Conn × ℕ))
        → ((p : ConnPool) → purge_buckets n (i + 1) p now timeout_ms ≡ none)
        → elim r [
          | none ↦ none
          | some (u, conns', j) ↦
              add_purged j (purge_buckets n (i + 1) (swept pool i u conns' j) now timeout_ms)
        ]
          ≡ none
    next none ih = refl
    next (some (u, conns', j)) ih = ap (add_purged j) (ih (swept pool i u conns' j))

    at :
        ((p : ConnPool) → i < pool_locks → purge_buckets n (i + 1) p now timeout_ms ≡ none)
        → (t : Bool) → leb pool_locks i ≡ t
        → elim t [
          | true ↦ none
          | false ↦
              elim (purge_chain
                (suc (length pool.conns))
                pool.conns
                (pool.buckets i)
                now
                timeout_ms) [
                  | none ↦ none
                  | some (u, conns', k) ↦
                      add_purged k
                        (purge_buckets n (i + 1) (swept pool i u conns' k) now timeout_ms)
                ]
        ]
          ≡ none
    at ih true e = refl
    at ih false e =
        next (purge_chain (suc (length pool.conns)) pool.conns (pool.buckets i) now timeout_ms)
          (λ p. ih p (ground (arith, e)))

-- Whatever the pool holds, `rc_conn_purge_timeouts` comes to take a lock that is not there.
pub purge_faults :
    (pool : ConnPool) (now : TimeVal) (timeout_ms : ℕ) → purge_timeouts pool now timeout_ms ≡ none
unfolding purge_timeouts
purge_faults pool now timeout_ms =
    past_locks pool_buckets 0 pool now timeout_ms (omega arith) (omega arith)

-- A connection that is not closed, and last received at a later microsecond of the present second,
-- or of one less than 2^53 seconds before it, is stale for every timeout of 32 bits.
pub is_stale_spurious :
    (now : TimeVal) (timeout_ms : ℕ) (c : Conn)
    → timeout_ms < 2 ^ 32
    → c.last_recv.tv_sec ≤ now.tv_sec
    → now.tv_sec < c.last_recv.tv_sec + 2 ^ 53
    → now.tv_usec < c.last_recv.tv_usec
    → c.last_recv.tv_usec < 1000000
    → is_state c.state closed ≡ false
    → is_stale now timeout_ms c ≡ true
unfolding is_stale idle_ms
is_stale_spurious now timeout_ms c t s d u m o = ground (arith, o)
