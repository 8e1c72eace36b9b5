-- ===== src/Conn/Pool/Create.antt =====
-- `rc_conn_create` of src/core/rc_conn.c: the pool as a map.
use robov.Prelude.{
  ◌+◌, ◌%◌, ◌^◌, ℕ, suc, ◌≤◌, ◌≡◌, refl, sym, ap, ◌∙◌, inl, inr, Bool, true, false, ◌||◌, ◌&&◌, not,
  Option, none, some, List, [], ◌∷◌, ◌++◌, arith, add32, ◌⊎◌, if◌then◌else◌, ◌==◌, leb, length,
  length-append, Bool-cases,
}
use mathlib.Core.Path.{subst}
use robov.Conn.{Conn, UserData, chain, TimeVal}
use robov.Conn.Pool.{ConnPool, Outcome, bucket_of, update, new_conn, insert, create, found, lookup}
use robov.Conn.Pool.Links.{Links, search, get_elem?-snoc, Links-append, search-append}
use robov.Conn.Pool.Lookup.{IsValid, lookup-search}

-- Chains at a greater bound.
Links-raise :
    (conns : List Conn) (b bound more : ℕ) (u : UserData) (ps : List ℕ)
    → bound ≤ more
    → Links conns b bound u ps
    → Links conns b more u ps
Links-raise conns b bound more u [] h l = l
Links-raise conns b bound more u (p ∷ ps) h l = (l.0, omega (arith, l.1), l.2)

-- The chain of a bucket after an insertion.
abbrev chain_of : ℕ → Conn → ℕ → List ℕ → List ℕ
chain_of n c b ps = if bucket_of c.conn_id == b then n ∷ ps else ps

insert-Links :
    (pool : ConnPool) (c : Conn) (b : ℕ) (ps : List ℕ)
    → c.user_data ≡ pool.buckets (bucket_of c.conn_id)
    → Links pool.conns b (length pool.conns) (pool.buckets b) ps
    → Links
        (pool.conns ++ c ∷ [])
        b
        (suc (length pool.conns))
        (update pool.buckets (bucket_of c.conn_id) (chain (length pool.conns)) b)
        (chain_of (length pool.conns) c b ps)
insert-Links pool c b ps h l =
    let conns' = pool.conns ++ c ∷ [] in
    let n = length pool.conns in
    let old = Links-append pool.conns (c ∷ []) b n (pool.buckets b) ps (omega arith) l in
    elim (Bool-cases (bucket_of c.conn_id == b)) [
      | inl e ↦
          let home : bucket_of c.conn_id ≡ b = ground (arith, e) in
          let link : c.user_data ≡ pool.buckets b = h ∙ ap pool.buckets home in
          rw e (
            refl,
            omega arith,
            (
              c,
              get_elem?-snoc pool.conns c,
              home,
              subst (λ u. Links conns' b n u ps) (sym link) old,
            ),
          )
      | inr e ↦ rw e (Links-raise conns' b n (suc n) (pool.buckets b) ps (omega arith) old)
    ]

insert-IsValid :
    (pool : ConnPool) (c : Conn)
    → c.user_data ≡ pool.buckets (bucket_of c.conn_id)
    → IsValid pool
    → IsValid (insert c pool)
unfolding IsValid insert
insert-IsValid pool c h v b =
    let (ps, l) = v b in
    let more : length (pool.conns ++ c ∷ []) ≡ suc (length pool.conns) =
      omega (arith, length-append pool.conns (c ∷ [])) in
    (chain_of (length pool.conns) c b ps, rw more (insert-Links pool c b ps h l))

insert-search :
    (pool : ConnPool) (c : Conn) (k : ℕ) (ps : List ℕ)
    → Links pool.conns (bucket_of k) (length pool.conns) (pool.buckets (bucket_of k)) ps
    → search (pool.conns ++ c ∷ []) (chain_of (length pool.conns) c (bucket_of k) ps) k
      ≡ (if c.conn_id == k then found (length pool.conns) else search pool.conns ps k)
unfolding search
insert-search pool c k ps l =
    let n = length pool.conns in
    let old =
      search-append pool.conns (c ∷ []) (bucket_of k) n (pool.buckets (bucket_of k)) ps k
        (omega arith) l in
    let same : (c.conn_id == k) ≡ true → (bucket_of c.conn_id == bucket_of k) ≡ true =
      λ e. ground (arith, ap bucket_of {x = c.conn_id} {y = k} (ground (arith, e))) in
    ground (arith, old, same, get_elem?-snoc pool.conns c)

insert-lookup :
    (pool : ConnPool) (c : Conn) (k : ℕ)
    → c.user_data ≡ pool.buckets (bucket_of c.conn_id)
    → IsValid pool
    → (lookup (insert c pool) k).0
      ≡ (if c.conn_id == k then found (length pool.conns) else (lookup pool k).0)
unfolding IsValid insert
insert-lookup pool c k h v =
    let (ps, l) = v (bucket_of k) in
    let n = length pool.conns in
    let more : length (pool.conns ++ c ∷ []) ≡ suc n =
      omega (arith, length-append pool.conns (c ∷ [])) in
    lookup-search (insert c pool) k (chain_of n c (bucket_of k) ps)
      (rw more (insert-Links pool c (bucket_of k) ps h l))
    ∙ insert-search pool c k ps l
    ∙ ap (λ w. if c.conn_id == k then found n else w) (sym (lookup-search pool k ps l))

-- The identifier that a call of `rc_conn_create` stands for.
abbrev pub requested : ConnPool → ℕ → ℕ
requested pool conn_id = if conn_id == 0 then pool.next_id else conn_id

-- Whether `rc_conn_create` makes a connection.
abbrev pub admits : Outcome → ConnPool → Bool
admits o pool =
    not (leb pool.max_conn pool.count)
    && (o.calloc_conn && (o.mutex_init && (o.calloc_send && o.calloc_recv)))

-- The pool once an identifier is assigned.
abbrev numbered : ConnPool → ℕ → ConnPool
numbered pool conn_id = record pool {
  next_id = if conn_id == 0 then add32 pool.next_id 1 else pool.next_id;
}

created : TimeVal → ConnPool → Option ℕ → ℕ → Conn
created now pool fd conn_id =
    new_conn (requested pool conn_id) fd now (pool.buckets (bucket_of (requested pool conn_id)))

module _ {A : Type 0} (x y z : A) where
  all_pass :
      (a b c d : Bool)
      → (not a && (b && (c && d))) ≡ true
      → (if a || not b then x else if not c || not d then y else z) ≡ z
  all_pass true b c d h = cc
  all_pass false false c d h = cc
  all_pass false true false d h = cc
  all_pass false true true false h = cc
  all_pass false true true true h = refl

  one_fails :
      (a b c d : Bool)
      → (not a && (b && (c && d))) ≡ false
      → let r = if a || not b then x else if not c || not d then y else z in (r ≡ x) ⊎ (r ≡ y)
  one_fails true b c d h = inl refl
  one_fails false false c d h = inl refl
  one_fails false true false d h = inr refl
  one_fails false true true false h = inr refl
  one_fails false true true true h = cc

create_made :
    (o : Outcome) (now : TimeVal) (pool : ConnPool) (fd : Option ℕ) (conn_id : ℕ)
    → admits o pool ≡ true
    → create o now pool fd conn_id
      ≡ (some (length pool.conns), insert (created now pool fd conn_id) (numbered pool conn_id))
unfolding create created
create_made o now pool fd conn_id h =
    all_pass _ _ _ (leb pool.max_conn pool.count) o.calloc_conn o.mutex_init
      (o.calloc_send && o.calloc_recv) h

create_refused :
    (o : Outcome) (now : TimeVal) (pool : ConnPool) (fd : Option ℕ) (conn_id : ℕ)
    → admits o pool ≡ false
    → (m : ℕ) × (create o now pool fd conn_id ≡ (none, record pool { next_id = m }))
unfolding create
create_refused o now pool fd conn_id h =
    elim (one_fails _ _ _ (leb pool.max_conn pool.count) o.calloc_conn o.mutex_init
      (o.calloc_send && o.calloc_recv) h) [ inl e ↦ (pool.next_id, e) | inr e ↦ (_, e) ]

pub create-IsValid :
    (o : Outcome) (now : TimeVal) (pool : ConnPool) (fd : Option ℕ) (conn_id : ℕ)
    → IsValid pool
    → IsValid (create o now pool fd conn_id).1
unfolding IsValid created new_conn
create-IsValid o now pool fd conn_id v = elim (Bool-cases (admits o pool)) [
  | inl e ↦
      rw (create_made o now pool fd conn_id e)
        (insert-IsValid (numbered pool conn_id) (created now pool fd conn_id) refl v)
  | inr e ↦ rw ((create_refused o now pool fd conn_id e).1) v
]

-- A lookup reads the connections and the buckets only.
lookup_numbered :
    (pool : ConnPool) (m k : ℕ) → (lookup (record pool { next_id = m }) k).0 ≡ (lookup pool k).0
unfolding lookup
lookup_numbered pool m k = refl

create_looks :
    (o : Outcome) (now : TimeVal) (pool : ConnPool) (fd : Option ℕ) (conn_id k : ℕ)
    → IsValid pool
    → let (made, pool') = create o now pool fd conn_id in
      (made ≡ (if admits o pool then some (length pool.conns) else none))
      × ((lookup pool' k).0 ≡ (
          if admits o pool && (requested pool conn_id == k)
          then found (length pool.conns)
          else (lookup pool k).0))
unfolding IsValid created new_conn
create_looks o now pool fd conn_id k v = elim (Bool-cases (admits o pool)) [
  | inl e ↦
      rw (create_made o now pool fd conn_id e, e)
        (
          refl,
          insert-lookup (numbered pool conn_id) (created now pool fd conn_id) k refl v
              ∙ ap (λ w. if requested pool conn_id == k then found (length pool.conns) else w)
                  (lookup_numbered pool _ k),
        )
  | inr e ↦ rw ((create_refused o now pool fd conn_id e).1, e) (refl, lookup_numbered pool _ k)
]

create_numbers :
    (o : Outcome) (now : TimeVal) (pool : ConnPool) (fd : Option ℕ) (conn_id : ℕ)
    → (create o now pool fd conn_id).1.next_id ≡ (
        if (conn_id == 0) && (not (leb pool.max_conn pool.count) && o.calloc_conn)
        then (pool.next_id + 1) % 2 ^ 32
        else pool.next_id)
unfolding create insert
create_numbers o now pool fd conn_id = ground arith

-- The pool is a map from identifiers to connections. In a well-formed pool with room, where the calls
-- that `rc_conn_create` makes succeed, the connection it returns is the next in order, and a lookup then
-- finds it under the identifier asked for (the pool's next number if that is 0, taken or not) and finds
-- under any other what it found before; if one of those conditions fails there is no connection, and every
-- lookup is as before. The next number goes up by one, modulo 2 ^ 32, exactly where the identifier
-- asked for is 0, the pool has room and the connection is allocated, even if a later call fails.
pub create_refines :
    (o : Outcome) (now : TimeVal) (pool : ConnPool) (fd : Option ℕ) (conn_id k : ℕ)
    → IsValid pool
    → let (made, pool') = create o now pool fd conn_id in
      (made ≡ (if admits o pool then some (length pool.conns) else none))
      × ((lookup pool' k).0 ≡ (
          if admits o pool && (requested pool conn_id == k)
          then found (length pool.conns)
          else (lookup pool k).0))
      × (pool'.next_id ≡ (
          if (conn_id == 0) && (not (leb pool.max_conn pool.count) && o.calloc_conn)
          then (pool.next_id + 1) % 2 ^ 32
          else pool.next_id))
create_refines o now pool fd conn_id k v =
    let (made, found_there) = create_looks o now pool fd conn_id k v in
    (made, found_there, create_numbers o now pool fd conn_id)
