-- ===== src/Relay/Purge.antt =====
-- `rc_relay_purge_idle` of src/core/rc_relay.c.
use robov.Prelude.{
  ltb, ◌&&◌, ◌-◌, ◌%◌, ◌^◌, ◌+◌, map, map_ext, ℕ, zero, suc, ◌≡◌, ◌≢◌, refl, sym, ap, ap₂, ◌∙◌,
  Bool, true, false, Option, none, some, arith, if◌then◌else◌, leb, get_elem?, get_elem?-lt,
  get_elem?-set_self, get_elem?-set_ne, inl, inr, ◌⊎◌,
}
use robov.Relay.{Session, Server, retire}
use robov.Relay.Forward.{is_idle, purge_from, purge_idle}
use robov.Relay.Sessions.{IsValid, retire-IsValid, and_left}
use robov.Relay.Closing.{retire-sessions, retire-max}

abbrev in_rounds : ℕ → ℕ → ℕ → Bool
in_rounds i n j = leb i j && ltb j (i + n)

abbrev purged : ℕ → ℕ → Session → Bool → Session
purged now timeout_ms s b = if b && is_idle now timeout_ms s then record s { active = false } else s

-- What the loop does to the sessions at the positions it has still to visit.
abbrev Purges : ℕ → ℕ → ℕ → ℕ → Server → ℕ × Server → Type 0
Purges n i now timeout_ms srv r =
    IsValid r.1
    × (r.1.session_count + r.0 ≡ srv.session_count)
    × (r.1.max_sessions ≡ srv.max_sessions)
    × ((j : ℕ) (s : Session)
        → get_elem? srv.sessions j ≡ some s
        → get_elem? r.1.sessions j ≡ some (purged now timeout_ms s (in_rounds i n j)))

Nat-cases : (i j : ℕ) → (i ≡ j) ⊎ (i ≢ j)
Nat-cases i j = ground arith

later_round : (i n j : ℕ) → i ≢ j → in_rounds (suc i) n j ≡ in_rounds i (suc n) j
later_round i n j h = ground (arith, h)

this_round : (i n : ℕ) → (in_rounds (suc i) n i ≡ false) × (in_rounds i (suc n) i ≡ true)
this_round i n = (ground arith, ground arith)

neither :
    (now timeout_ms : ℕ) (s : Session) (a b : Bool)
    → is_idle now timeout_ms s ≡ false
    → purged now timeout_ms s a ≡ purged now timeout_ms s b
neither now timeout_ms s a b q = still a ∙ sym (still b)
  where
    still : (a : Bool) → purged now timeout_ms s a ≡ s
    still true = ap (λ c. if c then record s { active = false } else s) q
    still false = refl

ended :
    (now timeout_ms : ℕ) (s : Session) (b : Bool)
    → purged now timeout_ms (record s { active = false }) b ≡ record s { active = false }
ended now timeout_ms s true = refl
ended now timeout_ms s false = refl

pass :
    (n i now timeout_ms : ℕ) (srv : Server) (r : ℕ × Server)
    → ((s : Session) → get_elem? srv.sessions i ≡ some s → is_idle now timeout_ms s ≡ false)
    → Purges n (suc i) now timeout_ms srv r
    → Purges (suc n) i now timeout_ms srv r
pass n i now timeout_ms srv r h p = (
  p.0,
  p.1,
  p.2,
  λ j s e. p.3 j s e ∙ elim (Nat-cases i j) [
    | inl same ↦
        let q : is_idle now timeout_ms s ≡ false = h s (ap (get_elem? srv.sessions) same ∙ e) in
        ap some (neither now timeout_ms s _ _ q)
    | inr other ↦ ap (λ b. some (purged now timeout_ms s b)) (later_round i n j other)
  ],
)

retired :
    (n i now timeout_ms : ℕ) (srv : Server) (s : Session) (r : ℕ × Server)
    → get_elem? srv.sessions i ≡ some s
    → is_idle now timeout_ms s ≡ true
    → IsValid srv
    → Purges n (suc i) now timeout_ms (retire i s srv) r
    → Purges (suc n) i now timeout_ms srv (suc r.0, r.1)
retired n i now timeout_ms srv s r e idle v p =
    let r = retire-IsValid i s srv e (and_left s.active _ idle) v in
    (
      p.0,
      omega (arith, p.1, r.1),
      p.2 ∙ retire-max i s srv,
      λ j t f. elim (Nat-cases i j) [
        | inl same ↦
            let s' = record s { active = false } in
            let here : get_elem? (retire i s srv).sessions j ≡ some s' =
              ap (get_elem? (retire i s srv).sessions) (sym same)
              ∙ ap (λ ss. get_elem? ss i) (retire-sessions i s srv)
              ∙ get_elem?-set_self srv.sessions i s' (get_elem?-lt srv.sessions i s e) in
            let t_s : t ≡ s =
              ap (λ o. elim o [ none ↦ t | some y ↦ y ])
                (sym f ∙ ap (get_elem? srv.sessions) (sym same) ∙ e) in
            let now_round : in_rounds i (suc n) j ≡ true = ground (arith, same) in
            p.3 j s' here
            ∙ ap some (
                ended now timeout_ms s _
                ∙ sym (
                    ap₂ (purged now timeout_ms) t_s now_round ∙ ap (λ c. if c then s' else s) idle))
        | inr other ↦
            p.3 j t (
              ap (λ ss. get_elem? ss j) (retire-sessions i s srv)
              ∙ get_elem?-set_ne srv.sessions _ other
              ∙ f)
            ∙ ap (λ b. some (purged now timeout_ms t b)) (later_round i n j other)
      ],
    )

purge_from-Purges :
    (n i now timeout_ms : ℕ) (srv : Server)
    → IsValid srv
    → Purges n i now timeout_ms srv (purge_from n i now timeout_ms srv)
unfolding purge_from
purge_from-Purges zero i now timeout_ms srv v = (
  v,
  omega arith,
  refl,
  λ j s e. e ∙ ap (λ b. some (purged now timeout_ms s b)) {x = false} (ground arith),
)
purge_from-Purges (suc n) i now timeout_ms srv v =
    at (purge_from-Purges n (suc i) now timeout_ms srv v)
      (λ s w. purge_from-Purges n (suc i) now timeout_ms (retire i s srv) w)
      (get_elem? srv.sessions i) refl
  where
    visit :
        (s : Session)
        → get_elem? srv.sessions i ≡ some s
        → Purges n (suc i) now timeout_ms srv (purge_from n (suc i) now timeout_ms srv)
        → ((s : Session)
            → IsValid (retire i s srv)
            → Purges n
                (suc i)
                now
                timeout_ms
                (retire i s srv)
                (purge_from n (suc i) now timeout_ms (retire i s srv)))
        → (b : Bool) → is_idle now timeout_ms s ≡ b
        → Purges (suc n) i now timeout_ms srv (elim b as (λ _. ℕ × Server) [
          | false ↦ purge_from n (suc i) now timeout_ms srv
          | true ↦
              let (k, srv') = purge_from n (suc i) now timeout_ms (retire i s srv) in (suc k, srv')
        ])
    visit s e ih ih' false q =
        pass n i now timeout_ms srv _
          (λ t f.
            ap (is_idle now timeout_ms) (ap (λ o. elim o [ none ↦ s | some y ↦ y ]) (sym f ∙ e))
            ∙ q)
          ih
    visit s e ih ih' true q =
        retired n i now timeout_ms srv s _ e q v
          (ih' s (retire-IsValid i s srv e (and_left s.active _ q) v).0)

    at :
        Purges n (suc i) now timeout_ms srv (purge_from n (suc i) now timeout_ms srv)
        → ((s : Session)
            → IsValid (retire i s srv)
            → Purges n
                (suc i)
                now
                timeout_ms
                (retire i s srv)
                (purge_from n (suc i) now timeout_ms (retire i s srv)))
        → (o : Option Session) → get_elem? srv.sessions i ≡ o
        → Purges (suc n) i now timeout_ms srv (elim o as (λ _. ℕ × Server) [
          | none ↦ purge_from n (suc i) now timeout_ms srv
          | some s ↦ elim (is_idle now timeout_ms s) [
            | false ↦ purge_from n (suc i) now timeout_ms srv
            | true ↦
                let (k, srv') = purge_from n (suc i) now timeout_ms (retire i s srv) in
                (suc k, srv')
          ]
        ])
    at ih ih' none e = pass n i now timeout_ms srv _ (λ t f. let x = sym e ∙ f in cc) ih
    at ih ih' (some s) e = visit s e ih ih' (is_idle now timeout_ms s) refl

-- In a well-formed server `rc_relay_purge_idle` ends every active session that was idle for longer than the timeout, leaves
-- every other as it was, returns how many it ended, by which the count drops, and leaves the server well formed.
pub purge_idle_lem :
    (now timeout_ms : ℕ) (srv : Server)
    → IsValid srv
    → let (k, srv') = purge_idle now srv timeout_ms in
      IsValid srv'
      × (srv'.session_count + k ≡ srv.session_count)
      × (srv'.sessions
          ≡ map
              (λ s.
                if s.active && ltb timeout_ms ((now + 2 ^ 64 - s.last_activity_ms) % 2 ^ 64)
                then record s { active = false }
                else s)
              srv.sessions)
unfolding purge_idle
purge_idle_lem now timeout_ms srv v =
    let p = purge_from-Purges srv.max_sessions 0 now timeout_ms srv v in
    (
      p.0,
      p.1,
      map_ext _ srv.sessions _ (p.0.length_all ∙ p.2 ∙ sym v.length_all) (λ j s e.
          p.3 j s e
          ∙ ap (λ b. some (purged now timeout_ms s b)) {y = true}
              (ground (arith, get_elem?-lt srv.sessions j s e, v.length_all))),
    )
