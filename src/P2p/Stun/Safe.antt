-- ===== src/P2p/Stun/Safe.antt =====
-- `stun_parse_response` on arbitrary bytes: it reads within the buffer and its loop ends.
use robov.Prelude.{
  ℕ, zero, suc, ◌+◌, ◌^◌, ◌<◌, ◌≤◌, ◌≡◌, List, Bool, true, false, ◌&&◌, ltb, leb, ◌==◌, leb→le,
  if_elim, length, get_or, arith,
}
use robov.Prelude.Bits.{xor-lt}
use robov.Proto.Bytes.{be_at, be_from, IsBytes}
use robov.P2p.Stun.{
  stun_magic, Parsed, mapped, invalid, reading, is_address, unmask, padded, attribute, scan,
  parse_response,
}

-- -1, or an address of 32 bits and a port of 16 bits.
pub data IsAnswer : Parsed → Type 0 where
  no_address : IsAnswer invalid
  address : {ip port : ℕ} → ip < 2 ^ 32 → port < 2 ^ 16 → IsAnswer (mapped ip port)

and_right : (a b : Bool) → (a && b) ≡ true → b ≡ true
and_right true b e = e
and_right false b e = cc

-- An attribute that fits and holds 8 bytes lies before the end of the message.
room :
    (end attr len n : ℕ) (a : Bool)
    → end ≤ n
    → ltb end (attr + 4 + len) ≡ false
    → (a && leb 8 len) ≡ true
    → attr + 12 ≤ n
room end attr len n a h fits long =
    let enough = leb→le 8 len (and_right a (leb 8 len) long) in ground (arith, fits, enough, h)

module _ (buf : List ℕ) (bytes : IsBytes buf) where
  at_two-lt : (i : ℕ) → be_at 2 buf i < 2 ^ 16
  unfolding be_at be_from
  at_two-lt i = omega (arith, bytes i, bytes (suc i))

  at_four-lt : (i : ℕ) → be_at 4 buf i < 2 ^ 32
  unfolding be_at be_from
  at_four-lt i =
      omega (arith, bytes i, bytes (suc i), bytes (suc (suc i)), bytes (suc (suc (suc i))))

  unmask-Answer :
      (attr_type ip port : ℕ) → ip < 2 ^ 32 → port < 2 ^ 16 → IsAnswer (unmask attr_type ip port)
  unfolding unmask
  unmask-Answer attr_type ip port hi hp =
      if_elim IsAnswer (attr_type == 0x0020)
        (λ e.
          address (xor-lt 32 ip stun_magic hi (omega arith))
            (xor-lt 16 port 0x2112 hp (omega arith)))
        (λ e. address hi hp)

  reading-Answer : (i : ℕ) {r : Parsed} → i ≤ length buf → IsAnswer r → IsAnswer (reading buf i r)
  unfolding reading
  reading-Answer i h a =
      if_elim IsAnswer (leb i (length buf)) (λ e. a) (λ e. absurd (ground (arith, e, h)))

  attribute-Answer :
      (end attr : ℕ) {next : Parsed}
      → end ≤ length buf
      → IsAnswer next
      → IsAnswer (attribute buf end attr next)
  unfolding attribute
  attribute-Answer end attr h a =
      if_elim IsAnswer (ltb end (attr + 4 + be_at 2 buf (attr + 2))) (λ e. no_address)
        (λ fits.
          if_elim IsAnswer (is_address (be_at 2 buf attr) && leb 8 (be_at 2 buf (attr + 2)))
            (λ long.
              let inside =
                room end attr (be_at 2 buf (attr + 2)) (length buf) (is_address (be_at 2 buf attr))
                  h fits long in
              reading-Answer (attr + 6) (omega (arith, inside)) (
                if_elim IsAnswer (get_or buf (attr + 5) 0 == 1)
                  (λ e. reading-Answer (attr + 12) inside (
                    unmask-Answer (be_at 2 buf attr) _ _ (at_four-lt (attr + 8))
                      (at_two-lt (attr + 6))))
                  (λ e. a)))
            (λ e. a))

  scan-Answer :
      (fuel end attr : ℕ)
      → end ≤ length buf
      → zero < fuel
      → end < attr + fuel
      → IsAnswer (scan fuel buf end attr)
  unfolding scan
  scan-Answer zero end attr h f l = elim f [ ]
  scan-Answer (suc fuel) end attr h f l =
      if_elim IsAnswer (leb (attr + 4) end)
        (λ e.
          let inside = leb→le (attr + 4) end e in
          reading-Answer (attr + 4) (omega (arith, inside, h)) (
            attribute-Answer end attr h (
              scan-Answer fuel end (attr + 4 + padded (be_at 2 buf (attr + 2))) h
                (omega (arith, inside, l)) (omega (arith, inside, l)))))
        (λ e. no_address)

  -- On any bytes the parser of STUN responses ends with -1 or with an address of 32 bits and a port
  -- of 16 bits: it reads no byte beyond the buffer, and the loop over the attributes ends within as
  -- many rounds as the message has bytes, and one.
  pub parse_response-IsAnswer : IsAnswer (parse_response buf)
  unfolding parse_response
  parse_response-IsAnswer =
      if_elim IsAnswer (ltb (length buf) 20) (λ e. no_address)
        (λ long. reading-Answer 8 (ground (arith, long)) (
          if_elim IsAnswer (be_at 2 buf 0 == 0x0101)
            (λ e.
              if_elim IsAnswer (be_at 4 buf 4 == stun_magic)
                (λ e.
                  if_elim IsAnswer (ltb (length buf) (20 + be_at 2 buf 2)) (λ e. no_address)
                    (λ fits.
                      scan-Answer (suc (be_at 2 buf 2)) (20 + be_at 2 buf 2) 20
                        (ground (arith, fits)) (omega arith) (omega arith)))
                (λ e. no_address))
            (λ e. no_address)))
