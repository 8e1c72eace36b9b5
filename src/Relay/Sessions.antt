-- ===== src/Relay/Sessions.antt =====
-- The session array of src/core/rc_relay.c: its count, its free slots and the routes of its sessions.
use robov.Prelude.{
  ℕ, zero, suc, ◌+◌, ◌^◌, ◌≤◌, ◌<◌, ◌≡◌, refl, sym, ap, ◌∙◌, Bool, true, false, not, ◌&&◌, Option,
  none, some, List, [], ◌∷◌, arith, if◌then◌else◌, ◌==◌, length, get_elem?, set, replicate,
  length-set, length-replicate, Bool-cases, inl, inr,
}
use mathlib.Core.Path.{subst}
use robov.Relay.{
  Session, Server, blank_session, empty_server, create, later, first_where, is_free, is_active_as,
  retire, session_destroy, route_remove, default_sessions,
}

abbrev pub one_if : Bool → ℕ
one_if b = if b then 1 else 0

-- How many sessions are active.
unfoldable pub active_count : List Session → ℕ
active_count [] = 0
active_count (s ∷ ss) = one_if s.active + active_count ss

-- The array has its length, and `session_count` is the number of active sessions.
pub record IsValid (srv : Server) : Type 0 where
  pub length_all : length srv.sessions ≡ srv.max_sessions
  pub count_all : srv.session_count ≡ active_count srv.sessions
  pub max_in : srv.max_sessions < 2 ^ 32

pub active_count-set :
    (ss : List Session) (i : ℕ) (s new : Session)
    → get_elem? ss i ≡ some s
    → active_count (set ss i new) + one_if s.active ≡ active_count ss + one_if new.active
unfolding active_count
active_count-set [] i s new e = cc
active_count-set (x ∷ xs) zero s new e =
    let same : x.active ≡ s.active = ap (λ o. elim o [ none ↦ false | some y ↦ y.active ]) e in
    ground (arith, same)
active_count-set (x ∷ xs) (suc i) s new e = omega (arith, active_count-set xs i s new e)

pub active_count_max : (ss : List Session) → active_count ss ≤ length ss
unfolding active_count
active_count_max [] = omega arith
active_count_max (s ∷ ss) = ground (arith, active_count_max ss)

active_count-replicate : (n : ℕ) → active_count (replicate n blank_session) ≡ 0
unfolding active_count
active_count-replicate zero = refl
active_count-replicate (suc n) = omega (arith, active_count-replicate n)

pred? : Option ℕ → Option ℕ
pred? none = none
pred? (some zero) = none
pred? (some (suc n)) = some n

pub and_left : (a b : Bool) → (a && b) ≡ true → a ≡ true
and_left true b h = refl
and_left false b h = h

pub and_right : (a b : Bool) → (a && b) ≡ true → b ≡ true
and_right true b h = h
and_right false b h = cc

pub not-true : (b : Bool) → not b ≡ true → b ≡ false
not-true true h = cc
not-true false h = refl

-- What a scan of the array finds passes the test, and it finds something if something does.
pub first_where-some :
    (p : Session → Bool) (ss : List Session) (i : ℕ)
    → first_where p ss ≡ some i
    → (s : Session) × (get_elem? ss i ≡ some s) × (p s ≡ true)
unfolding first_where pred?
first_where-some p [] i e = cc
first_where-some p (x ∷ xs) i e = at (first_where-some p xs) (p x) refl (first_where p xs) refl i e
  where
    at :
        ((j : ℕ)
          → first_where p xs ≡ some j
          → (s : Session) × (get_elem? xs j ≡ some s) × (p s ≡ true))
        → (t : Bool) → p x ≡ t
        → (r : Option ℕ) → first_where p xs ≡ r
        → (j : ℕ) → (elim t [ true ↦ some 0 | false ↦ later r ]) ≡ some j
        → (s : Session) × (get_elem? (x ∷ xs) j ≡ some s) × (p s ≡ true)
    at ih true q r f zero g = (x, refl, q)
    at ih true q r f (suc j) g = cc
    at ih false q none f j g = cc
    at ih false q (some k) f zero g = cc
    at ih false q (some k) f (suc j) g = ih j (f ∙ ap pred? g)

pub first_where-free :
    (ss : List Session) → active_count ss < length ss → (i : ℕ) × (first_where is_free ss ≡ some i)
unfolding first_where active_count
first_where-free [] h = absurd (omega (arith, h))
first_where-free (x ∷ xs) h = elim (Bool-cases x.active) [
  | inl e ↦ let (i, f) = first_where-free xs (ground (arith, h, e)) in (suc i, rw (e, f) refl)
  | inr e ↦ (0, rw e refl)
]

pub create-IsValid :
    (a b c : Bool) (n : ℕ) (srv : Server) → n < 2 ^ 32 → create a b c n ≡ some srv → IsValid srv
unfolding create
create-IsValid a b c n srv h e = at (a && (b && c)) e
  where
    m : ℕ
    m = if n == 0 then default_sessions else n

    at : (t : Bool) → (if t then some (empty_server m) else none) ≡ some srv → IsValid srv
    at true q = subst IsValid (ap (λ o. elim o [ none ↦ empty_server m | some y ↦ y ]) q) (record {
      length_all = length-replicate m blank_session;
      count_all = sym (active_count-replicate m);
      max_in = ground (arith, h);
    })
    at false q = cc

pub retire-IsValid :
    (i : ℕ) (s : Session) (srv : Server)
    → get_elem? srv.sessions i ≡ some s
    → s.active ≡ true
    → IsValid srv
    → IsValid (retire i s srv) × ((retire i s srv).session_count + 1 ≡ srv.session_count)
unfolding retire route_remove
retire-IsValid i s srv e a v =
    let less = active_count-set srv.sessions i s (record s { active = false }) e in
    let most = active_count_max srv.sessions in
    (
      record {
        length_all = length-set srv.sessions i _ ∙ v.length_all;
        count_all = ground (arith, less, most, a, v.count_all, v.length_all, v.max_in);
        max_in = v.max_in;
      },
      ground (arith, less, most, a, v.count_all, v.length_all, v.max_in),
    )

pub session_destroy-IsValid :
    (srv : Server) (session_id : ℕ) → IsValid srv → IsValid (session_destroy srv session_id)
unfolding session_destroy
session_destroy-IsValid srv session_id v =
    at (first_where (is_active_as session_id) srv.sessions) refl
  where
    at :
        (r : Option ℕ)
        → first_where (is_active_as session_id) srv.sessions ≡ r
        → IsValid (elim r [
          | none ↦ srv
          | some i ↦ elim (get_elem? srv.sessions i) [ none ↦ srv | some s ↦ retire i s srv ]
        ])
    at none e = v
    at (some i) e =
        let (s, f, a) = first_where-some (is_active_as session_id) srv.sessions i e in
        rw f (retire-IsValid i s srv f (and_left s.active _ a) v).0
