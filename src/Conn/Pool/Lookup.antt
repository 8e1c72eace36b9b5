-- ===== src/Conn/Pool/Lookup.antt =====
-- The pool as a map: what `rc_conn_create` puts in, `rc_conn_lookup` finds.
use robov.Prelude.{ℕ, zero, suc, ◌≡◌, refl, sym, ap, List, [], ◌∷◌, arith, length}
use mathlib.Core.Path.{subst}
use robov.Conn.{Conn}
use robov.Conn.Pool.{
  ConnPool, bucket_of, pool_init, Walk, found, absent, fault, endless, retained, modify, retain,
  lookup,
}
use robov.Conn.Pool.Links.{Links, search, walk-search, Held, search-Held, Links-retained}

-- Every bucket has a chain of connections that belong to it.
unfoldable pub IsValid : ConnPool → Type 0
IsValid pool = (b : ℕ) → (ps : List ℕ) × Links pool.conns b (length pool.conns) (pool.buckets b) ps

pub pool_init-IsValid : (n : ℕ) → IsValid (pool_init n)
unfolding IsValid pool_init
pool_init-IsValid n b = ([], refl)

pub lookup-search :
    (pool : ConnPool) (k : ℕ) (ps : List ℕ)
    → Links pool.conns (bucket_of k) (length pool.conns) (pool.buckets (bucket_of k)) ps
    → (lookup pool k).0 ≡ search pool.conns ps k
unfolding lookup
lookup-search pool k ps l =
    walk-search (suc (length pool.conns)) pool.conns (bucket_of k) (length pool.conns)
      (pool.buckets (bucket_of k)) ps k (omega arith) l

-- In a well-formed pool `rc_conn_lookup` follows a chain to its end: it meets nothing that is not a
-- connection, and a connection that it finds has the identifier.
pub lookup-Held : (pool : ConnPool) (k : ℕ) → IsValid pool → Held pool.conns k (lookup pool k).0
unfolding IsValid
lookup-Held pool k v =
    let (ps, l) = v (bucket_of k) in
    subst (Held pool.conns k) (sym (lookup-search pool k ps l))
      (search-Held pool.conns (bucket_of k) (length pool.conns) (pool.buckets (bucket_of k)) ps k l)

length-modify : (conns : List Conn) (p : ℕ) → length (modify conns p retained) ≡ length conns
unfolding modify
length-modify [] p = refl
length-modify (c ∷ conns) zero = refl
length-modify (c ∷ conns) (suc p) = ap suc (length-modify conns p)

pub retain-IsValid : (pool : ConnPool) (w : Walk) → IsValid pool → IsValid (retain pool w)
unfolding IsValid retain
retain-IsValid pool (found p) v b =
    let (ps, l) = v b in
    (
      ps,
      rw (length-modify pool.conns p)
          (Links-retained pool.conns p b (length pool.conns) (pool.buckets b) ps l),
    )
retain-IsValid pool absent v b = v b
retain-IsValid pool fault v b = v b
retain-IsValid pool endless v b = v b

pub lookup-IsValid : (pool : ConnPool) (k : ℕ) → IsValid pool → IsValid (lookup pool k).1
unfolding lookup
lookup-IsValid pool k v = retain-IsValid pool (lookup pool k).0 v
