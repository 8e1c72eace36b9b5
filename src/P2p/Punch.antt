-- ===== src/P2p/Punch.antt =====
-- Hole punching and the fallback to the relay over sequences of calls.
use robov.Prelude.{
  ℕ, ◌+◌, ◌-◌, ◌<◌, ◌≤◌, ◌≡◌, ◌≢◌, ◌↔◌, refl, sym, ap, ◌∙◌, List, [], ◌∷◌, ◌++◌, Bool, true, false,
  ◌||◌, Option, none, some, if_elim, Bool-cases, inl, inr, ==_iff, if◌then◌else◌, if_true, if_false,
  ltb, leb, ◌==◌, length, take, min, sub64, arith,
}
use robov.Proto.{header_size, hdr_pack, hdr_init, hdr_unpack, hdr_fields, hdr_check, pkt_type_code}
use robov.Proto.Bytes.{be_bytes, be_at}
use robov.Ring
use robov.Ring.{Ring}
use robov.Ring.Inv.{IsValid, contents}
use robov.Ring.Fifo.{queue_write, write_refines}
use robov.P2p.{
  Addr, P2pState, ok, failed, punch_max_attempts, punch_interval_ms, punch_probe, probe_on,
  send_punch_probe, answered, opens, received, heard, punch, tick, RelayedConn, relay_request,
  fallback_relay,
}

-- The probes that a tick sends: none or one.
probes : Option (List ℕ) → ℕ
probes none = 0
probes (some bytes) = 1

-- What a tick keeps: the number of attempts counts the probes sent, and is at most ten.
abbrev Counts : P2pState → Bool × Option (List ℕ) × P2pState → Type 0
Counts s r =
    (r.2.punch_attempts ≡ s.punch_attempts + probes r.1) × (r.2.punch_attempts ≤ punch_max_attempts)

received-attempts :
    (d : Option (List ℕ × Addr)) (s : P2pState) → (received d s).1.punch_attempts ≡ s.punch_attempts
unfolding received
received-attempts none s = refl
received-attempts (some (bytes, from)) s =
    if_elim (λ (r : Bool × P2pState). r.1.punch_attempts ≡ s.punch_attempts) _ (λ e. refl)
      (λ e. refl)

heard-attempts :
    (fd : Option ℕ) (d : Option (List ℕ × Addr)) (s : P2pState)
    → (heard fd d s).1.punch_attempts ≡ s.punch_attempts
unfolding heard
heard-attempts none d s = refl
heard-attempts (some fd) d s = received-attempts d s

probe_on-attempts :
    (fd : Option ℕ) (now : ℕ) (sent : Bool) (s : P2pState)
    → s.punch_attempts < punch_max_attempts
    → (probe_on fd now sent s).1.punch_attempts
      ≡ s.punch_attempts + probes (probe_on fd now sent s).0
unfolding probe_on probes
probe_on-attempts none now sent s h = omega arith
probe_on-attempts (some fd) now true s h = omega (arith, h)
probe_on-attempts (some fd) now false s h = omega arith

probes-le : (o : Option (List ℕ)) → probes o ≤ 1
unfolding probes
probes-le none = omega arith
probes-le (some b) = omega arith

tick-Counts :
    (now : ℕ) (sent : Bool) (d : Option (List ℕ × Addr)) (s : P2pState)
    → s.punch_attempts ≤ punch_max_attempts
    → Counts s (tick now sent d s)
unfolding tick punch send_punch_probe probes
tick-Counts now sent d s h =
    if_elim (Counts s) (s.punch_success || s.use_relay) (λ e. idle)
      (λ e.
        if_elim (Counts s) (leb punch_max_attempts s.punch_attempts) (λ e. idle)
          (λ below.
            if_elim (Counts s) (ltb (sub64 now s.last_punch_ms) punch_interval_ms) (λ e. idle)
              (λ due. counted (ground (arith, below)))))
  where
    idle : Counts s (false, none, s)
    idle = (omega arith, h)

    counted :
        s.punch_attempts < punch_max_attempts
        → (((heard
                (probe_on s.punch_fd now sent s).1.punch_fd
                d
                (probe_on s.punch_fd now sent s).1).1.punch_attempts
              ≡ s.punch_attempts + probes (probe_on s.punch_fd now sent s).0)
            × ((heard
                  (probe_on s.punch_fd now sent s).1.punch_fd
                  d
                  (probe_on s.punch_fd now sent s).1).1.punch_attempts
                ≤ punch_max_attempts))
    counted below =
        let after : P2pState = (probe_on s.punch_fd now sent s).1 in
        let same = heard-attempts after.punch_fd d after in
        let step = probe_on-attempts s.punch_fd now sent s below in
        (
          same ∙ step,
          omega (arith, same, step, below, probes-le (probe_on s.punch_fd now sent s).0),
        )

-- A round of the event loop: the time, whether `sendto` succeeds, and the datagram that waits.
pub record Round : Type 0 where
  pub now : ℕ
  pub sent : Bool
  pub datagram : Option (List ℕ × Addr)

-- The number of probes that ticks send, one after the other, and the last state.
pub ticks : P2pState → List Round → ℕ × P2pState
unfolding probes
ticks s [] = (0, s)
ticks s (r ∷ rs) =
    let (done, probe, s1) = tick r.now r.sent r.datagram s in
    let (n, s2) = ticks s1 rs in (probes probe + n, s2)

-- However often the peer is polled and whatever happens on the network, a state with at most ten
-- attempts has as many attempts afterwards as before and probes sent, and never more than ten.
pub ticks-count :
    (s : P2pState) (rs : List Round)
    → s.punch_attempts ≤ punch_max_attempts
    → ((ticks s rs).1.punch_attempts ≡ s.punch_attempts + (ticks s rs).0)
      × ((ticks s rs).1.punch_attempts ≤ punch_max_attempts)
unfolding ticks
ticks-count s [] h = (omega arith, h)
ticks-count s (r ∷ rs) h =
    let step = tick-Counts r.now r.sent r.datagram s h in
    let rest = ticks-count (tick r.now r.sent r.datagram s).2 rs step.1 in
    (omega (arith, step.0, rest.0), rest.1)

-- A state that waits for its next probe: nothing has succeeded, attempts are left, the interval has
-- passed, and there is a socket.
pub record IsDue (now : ℕ) (s : P2pState) : Type 0 where
  pub open_yet : (s.punch_success || s.use_relay) ≡ false
  pub attempts_left : s.punch_attempts < punch_max_attempts
  pub interval_over : punch_interval_ms ≤ sub64 now s.last_punch_ms
  pub socket : ℕ
  pub has_socket : s.punch_fd ≡ some socket

probe-opens : opens (take (header_size + 64) punch_probe) ≡ true
unfolding opens answered punch_probe hdr_pack hdr_init hdr_unpack hdr_fields hdr_check be_bytes
    be_at pkt_type_code
probe-opens = refl

heard-probe :
    (fd : Option ℕ) (socket : ℕ) (from : Addr) (s : P2pState)
    → fd ≡ some socket
    → heard fd (some (punch_probe, from)) s
      ≡ (true, record s { punch_success = true; peer_addr = from })
unfolding heard received
heard-probe fd socket from s e =
    ap (λ o. heard o (some (punch_probe, from)) s) e ∙ if_true _ _ probe-opens

probe_on-fd :
    (fd : Option ℕ) (now : ℕ) (sent : Bool) (s : P2pState)
    → (probe_on fd now sent s).1.punch_fd ≡ s.punch_fd
unfolding probe_on
probe_on-fd none now sent s = refl
probe_on-fd (some fd) now true s = refl
probe_on-fd (some fd) now false s = refl

tick-due :
    (now : ℕ) (sent : Bool) (d : Option (List ℕ × Addr)) (s : P2pState)
    → IsDue now s
    → tick now sent d s ≡ punch now sent d s
unfolding tick
tick-due now sent d s due =
    let left : leb punch_max_attempts s.punch_attempts ≡ false =
      ground (arith, due.attempts_left) in
    let over : ltb (sub64 now s.last_punch_ms) punch_interval_ms ≡ false =
      ground (arith, due.interval_over) in
    if_false _ _ due.open_yet ∙ if_false _ _ left ∙ if_false _ _ over

punched :
    (now : ℕ) (sent : Bool) (from : Addr) (s : P2pState)
    → IsDue now s
    → let (r, probe, s') = punch now sent (some (punch_probe, from)) s in
      (r ≡ true) × (s'.punch_success ≡ true) × (s'.peer_addr ≡ from)
unfolding punch send_punch_probe
punched now sent from s d =
    let s1 : P2pState = (probe_on s.punch_fd now sent s).1 in
    let found =
      heard-probe s1.punch_fd d.socket from s1 (probe_on-fd s.punch_fd now sent s ∙ d.has_socket) in
    (
      ap (λ (r : Bool × P2pState). r.0) found,
      ap (λ (r : Bool × P2pState). r.1.punch_success) found,
      ap (λ (r : Bool × P2pState). r.1.peer_addr) found,
    )

-- When two peers probe each other, a peer that is due for its next probe and finds the probe of the
-- other one waiting ends the punching in that tick with success, whether or not its own probe
-- could be sent.
pub probe_opens :
    (now : ℕ) (sent : Bool) (from : Addr) (s : P2pState)
    → IsDue now s
    → let (r, probe, s') = tick now sent (some (punch_probe, from)) s in
      (r ≡ true) × (s'.punch_success ≡ true) × (s'.peer_addr ≡ from)
probe_opens now sent from s d =
    let whole = tick-due now sent (some (punch_probe, from)) s d in
    let found = punched now sent from s d in
    (
      ap (λ (r : Bool × Option (List ℕ) × P2pState). r.0) whole ∙ found.0,
      ap (λ (r : Bool × Option (List ℕ) × P2pState). r.2.punch_success) whole ∙ found.1,
      ap (λ (r : Bool × Option (List ℕ) × P2pState). r.2.peer_addr) whole ∙ found.2,
    )

-- When the attempts are used up without success and no relay is used, a tick answers `false`, sends
-- nothing and changes nothing, whatever arrives.
pub tick_gives_up :
    (now : ℕ) (sent : Bool) (d : Option (List ℕ × Addr)) (s : P2pState)
    → (s.punch_success || s.use_relay) ≡ false
    → punch_max_attempts ≤ s.punch_attempts
    → tick now sent d s ≡ (false, none, s)
unfolding tick
tick_gives_up now sent d s e h =
    let spent : leb punch_max_attempts s.punch_attempts ≡ true = ground (arith, h) in
    if_false _ _ e ∙ if_true _ _ spent

length-relay_request : (seq id : ℕ) → length (relay_request seq id) ≡ header_size
unfolding relay_request hdr_pack be_bytes
length-relay_request seq id = omega arith

failed-ne_ok : failed ≢ ok
failed-ne_ok e = cc

true-ne_false : true ≢ false
true-ne_false e = cc

status_iff :
    (w room : ℕ)
    → w ≡ min header_size room
    → ((if w == header_size then ok else failed) ≡ ok) ↔ (header_size ≤ room)
status_iff w room h = elim (Bool-cases (w == header_size)) [
  | inl e ↦
      let full = (==_iff w header_size).0 e in (λ _. omega (arith, h, full), λ _. if_true _ _ e)
  | inr e ↦ (
    λ q. absurd (failed-ne_ok (sym (if_false _ _ e) ∙ q)),
    λ enough.
        absurd (true-ne_false (sym ((==_iff w header_size).1 (omega (arith, h, enough))) ∙ e)),
  )
]

-- Falling back on a connection whose send ring is valid sets the relay flag, appends as much of
-- the relay request as the ring has room for, and returns 0 exactly if that is all of its 32
-- bytes: on -1 the beginning of the request stays in the ring.
pub fallback_relay_lem :
    (c : RelayedConn) (s : P2pState)
    → IsValid (c.send_buf)
    → let (r, c', s') = fallback_relay c s in
      let room = c.send_buf.size - length (contents c.send_buf) in
      ((r ≡ ok) ↔ (header_size ≤ room))
      × (contents c'.send_buf
          ≡ contents c.send_buf
            ++ take (min header_size room) (relay_request c.local_seq c.conn_id))
      × (s'.use_relay ≡ true)
unfolding fallback_relay queue_write
fallback_relay_lem c s v =
    let request : List ℕ = relay_request c.local_seq c.conn_id in
    let room = c.send_buf.size - length (contents c.send_buf) in
    let queued = write_refines v request in
    let long = length-relay_request c.local_seq c.conn_id in
    let written : (Ring.write c.send_buf request).0 ≡ min header_size room =
      ap (λ (q : ℕ × List ℕ). q.0) queued ∙ ap (λ n. min n room) long in
    (
      status_iff (Ring.write c.send_buf request).0 room written,
      ap (λ (q : ℕ × List ℕ). q.1) queued
          ∙ ap (λ n. contents c.send_buf ++ take (min n room) request) long,
      refl,
    )
