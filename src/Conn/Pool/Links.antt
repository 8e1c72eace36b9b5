-- ===== src/Conn/Pool/Links.antt =====
-- The chains of a pool: what makes them well formed, and that a walk along one ends.
use robov.Prelude.{
  ℕ, zero, suc, ◌≤◌, ◌<◌, ◌≡◌, refl, sym, ap, ◌∙◌, inl, inr, none, some, List, [], ◌∷◌, ◌++◌, arith,
  if◌then◌else◌, ◌==◌, length, get_elem?, Bool-cases,
}
use mathlib.Core.Path.{subst}
use robov.Conn.{Conn, UserData, null, chain}
use robov.Conn.Pool.{bucket_of, modify, retained, walk, Walk, found, absent, fault}

-- From `u` a chain leads through the positions `ps`, each lower than the one before and below `bound`,
-- to its end; every connection on it belongs to bucket `b`.
abbrev pub Links : List Conn → ℕ → ℕ → UserData → List ℕ → Type 0
Links conns b bound u [] = u ≡ null
Links conns b bound u (p ∷ ps) =
    (u ≡ chain p)
    × (p < bound)
    × ((c : Conn) × (get_elem? conns p ≡ some c)
        × (bucket_of c.conn_id ≡ b)
        × Links conns b p c.user_data ps)

-- The first position on a chain that holds the connection wanted.
unfoldable pub search : List Conn → List ℕ → ℕ → Walk
search conns [] conn_id = absent
search conns (p ∷ ps) conn_id = elim (get_elem? conns p) [
  | none ↦ fault
  | some c ↦ let rest = search conns ps conn_id in if c.conn_id == conn_id then found p else rest
]

-- With more fuel than the bound a walk ends, and finds what the chain holds.
pub walk-search :
    (fuel : ℕ) (conns : List Conn) (b bound : ℕ) (u : UserData) (ps : List ℕ) (conn_id : ℕ)
    → bound < fuel
    → Links conns b bound u ps
    → walk fuel conns u conn_id ≡ search conns ps conn_id
unfolding walk search
walk-search zero conns b bound u ps conn_id h l = elim h [ ]
walk-search (suc n) conns b bound u [] conn_id h l = ap (λ v. walk (suc n) conns v conn_id) l
walk-search (suc n) conns b bound u (p ∷ ps) conn_id h l =
    let (c, e, home, rest) = l.2 in
    ground (arith, l.0, e, walk-search n conns b p c.user_data ps conn_id (omega (arith, l.1)) rest)

get_elem?-append :
    (xs ys : List Conn) (i : ℕ) → i < length xs → get_elem? (xs ++ ys) i ≡ get_elem? xs i
get_elem?-append [] ys i h = elim h [ ]
get_elem?-append (x ∷ xs) ys zero h = refl
get_elem?-append (x ∷ xs) ys (suc i) h = get_elem?-append xs ys i (omega arith)

pub get_elem?-snoc : (xs : List Conn) (c : Conn) → get_elem? (xs ++ c ∷ []) (length xs) ≡ some c
get_elem?-snoc [] c = refl
get_elem?-snoc (x ∷ xs) c = get_elem?-snoc xs c

-- A new connection behind the others changes no chain.
pub Links-append :
    (conns more : List Conn) (b bound : ℕ) (u : UserData) (ps : List ℕ)
    → bound ≤ length conns
    → Links conns b bound u ps
    → Links (conns ++ more) b bound u ps
Links-append conns more b bound u [] h l = l
Links-append conns more b bound u (p ∷ ps) h l =
    let (c, e, home, rest) = l.2 in
    (
      l.0,
      l.1,
      (
        c,
        get_elem?-append conns more p (omega (arith, l.1)) ∙ e,
        home,
        Links-append conns more b p c.user_data ps (omega (arith, l.1)) rest,
      ),
    )

pub search-append :
    (conns more : List Conn) (b bound : ℕ) (u : UserData) (ps : List ℕ) (conn_id : ℕ)
    → bound ≤ length conns
    → Links conns b bound u ps
    → search (conns ++ more) ps conn_id ≡ search conns ps conn_id
unfolding search
search-append conns more b bound u [] conn_id h l = refl
search-append conns more b bound u (p ∷ ps) conn_id h l =
    let (c, e, home, rest) = l.2 in
    ground (
      arith,
      e,
      get_elem?-append conns more p (omega (arith, l.1)),
      search-append conns more b p c.user_data ps conn_id (omega (arith, l.1)) rest,
    )

-- What a search finds is on the chain and has the identifier wanted.
pub Held : List Conn → ℕ → Walk → Type 0
Held conns conn_id absent = Unit
Held conns conn_id (found p) = (c : Conn) × (get_elem? conns p ≡ some c) × (c.conn_id ≡ conn_id)
Held conns conn_id _ = ⊥

pub search-Held :
    (conns : List Conn) (b bound : ℕ) (u : UserData) (ps : List ℕ) (conn_id : ℕ)
    → Links conns b bound u ps
    → Held conns conn_id (search conns ps conn_id)
unfolding search Held
search-Held conns b bound u [] conn_id l = tt
search-Held conns b bound u (p ∷ ps) conn_id l =
    let (c, e, home, rest) = l.2 in
    elim (Bool-cases (c.conn_id == conn_id)) [
      | inl same ↦
          let here : search conns (p ∷ ps) conn_id ≡ found p = ground (arith, e, same) in
          subst (Held conns conn_id) (sym here) (c, e, ground arith)
      | inr other ↦
          let on : search conns (p ∷ ps) conn_id ≡ search conns ps conn_id =
            ground (arith, e, other) in
          subst (Held conns conn_id) (sym on) (search-Held conns b p c.user_data ps conn_id rest)
    ]

-- A reference more leaves every connection its identifier and its link.
get_elem?-retained :
    (conns : List Conn) (q p : ℕ) (c : Conn)
    → get_elem? conns p ≡ some c
    → (d : Conn) × (get_elem? (modify conns q retained) p ≡ some d)
      × (d.conn_id ≡ c.conn_id)
      × (d.user_data ≡ c.user_data)
unfolding modify
get_elem?-retained [] q p c e = (c, e, refl, refl)
get_elem?-retained (x ∷ xs) zero zero c e = (
  retained x,
  refl,
  ap (λ o. elim o [ none ↦ 0 | some y ↦ y.conn_id ]) e,
  ap (λ o. elim o [ none ↦ null | some y ↦ y.user_data ]) e,
)
get_elem?-retained (x ∷ xs) zero (suc p) c e = (c, e, refl, refl)
get_elem?-retained (x ∷ xs) (suc q) zero c e = (c, e, refl, refl)
get_elem?-retained (x ∷ xs) (suc q) (suc p) c e = get_elem?-retained xs q p c e

pub Links-retained :
    (conns : List Conn) (q b bound : ℕ) (u : UserData) (ps : List ℕ)
    → Links conns b bound u ps
    → Links (modify conns q retained) b bound u ps
Links-retained conns q b bound u [] l = l
Links-retained conns q b bound u (p ∷ ps) l =
    let (c, e, home, rest) = l.2 in
    let (d, e', i, v) = get_elem?-retained conns q p c e in
    (
      l.0,
      l.1,
      (d, e', ap bucket_of i ∙ home, rw v (Links-retained conns q b p c.user_data ps rest)),
    )

pub search-retained :
    (conns : List Conn) (q b bound : ℕ) (u : UserData) (ps : List ℕ) (conn_id : ℕ)
    → Links conns b bound u ps
    → search (modify conns q retained) ps conn_id ≡ search conns ps conn_id
unfolding search
search-retained conns q b bound u [] conn_id l = refl
search-retained conns q b bound u (p ∷ ps) conn_id l =
    let (c, e, home, rest) = l.2 in
    let (d, e', i, v) = get_elem?-retained conns q p c e in
    ground (arith, e, e', i, search-retained conns q b p c.user_data ps conn_id rest)
