-- ===== src/Proto/RoundTrip.antt =====
-- `rc_hdr_pack` and `rc_hdr_unpack` against each other.
use robov.Prelude.{
  ◌∙◌, ℕ, zero, suc, ◌+◌, ◌^◌, ◌<◌, ◌≤◌, ◌≡◌, refl, sym, ap, List, [], ◌∷◌, ◌++◌, arith, length,
  get_or, take,
}
use robov.Proto.Bytes.{be_bytes, be_at, IsBytes}
use robov.Proto.{Header, hdr_pack, hdr_fields, hdr_check, hdr_unpack, header_size}

-- Each field fits its width in `rc_pkt_hdr_t`.
pub record InRange (h : Header) : Type 0 where
  pub magic_in : h.magic < 2 ^ 32
  pub version_in : h.version < 2 ^ 16
  pub kind_in : h.kind < 2 ^ 16
  pub seq_in : h.seq < 2 ^ 32
  pub ack_in : h.ack < 2 ^ 32
  pub timestamp_in : h.timestamp < 2 ^ 64
  pub payload_len_in : h.payload_len < 2 ^ 16
  pub flags_in : h.flags < 2 ^ 16
  pub conn_id_in : h.conn_id < 2 ^ 32

pub hdr_fields-pack : (h : Header) (rest : List ℕ) → InRange h → hdr_fields (hdr_pack h ++ rest) ≡ h
unfolding hdr_fields hdr_pack be_at be_bytes
hdr_fields-pack h rest v = ground arith

pub unpack_packed :
    (h : Header) (rest : List ℕ) → InRange h → hdr_unpack (hdr_pack h ++ rest) ≡ (hdr_check h, h)
unfolding hdr_unpack
unpack_packed h rest v = ap (λ r. (hdr_check r, r)) (hdr_fields-pack h rest v)

pub length-hdr_pack :
    (h : Header) (rest : List ℕ) → length (hdr_pack h ++ rest) ≡ length rest + header_size
unfolding hdr_pack be_bytes
length-hdr_pack h rest = omega arith

-- `n` bytes of `src` from `i` on.
window : List ℕ → ℕ → ℕ → List ℕ
window src i zero = []
window src i (suc n) = get_or src i 0 ∷ window src (suc i) n

window-cons : (x : ℕ) (xs : List ℕ) (i n : ℕ) → window (x ∷ xs) (suc i) n ≡ window xs i n
unfolding window
window-cons x xs i zero = refl
window-cons x xs i (suc n) = ap (λ r. get_or xs i 0 ∷ r) (window-cons x xs (suc i) n)

take-eq-window : (src : List ℕ) (n : ℕ) → n ≤ length src → take n src ≡ window src 0 n
unfolding window
take-eq-window src zero h = refl
take-eq-window [] (suc n) h = absurd (omega arith)
take-eq-window (x ∷ xs) (suc n) h =
    ap (λ r. x ∷ r) (take-eq-window xs n (omega arith) ∙ sym (window-cons x xs 0 n))

module _ (src : List ℕ) (b : IsBytes src) (off : ℕ) where
  be_bytes-at_two : be_bytes 2 (be_at 2 src off) ≡ window src off 2
  unfolding be_bytes be_at window
  be_bytes-at_two = ground (arith, b off, b (suc off))

  be_bytes-at_four : be_bytes 4 (be_at 4 src off) ≡ window src off 4
  unfolding be_bytes be_at window
  be_bytes-at_four = ground (arith, b off, b (suc off), b (suc (suc off)), b (suc (suc (suc off))))

  be_bytes-at_eight : be_bytes 8 (be_at 8 src off) ≡ window src off 8
  unfolding be_bytes be_at window
  be_bytes-at_eight = ground (
    arith,
    b off,
    b (suc off),
    b (suc (suc off)),
    b (suc (suc (suc off))),
    b (suc (suc (suc (suc off)))),
    b (suc (suc (suc (suc (suc off))))),
    b (suc (suc (suc (suc (suc (suc off)))))),
    b (suc (suc (suc (suc (suc (suc (suc off))))))),
  )

-- Packing the fields that were read from 32 bytes or more gives the first 32 bytes back: nothing
-- of a header is lost, reordered or defaulted, whether or not it is accepted.
pub pack-unpack :
    (src : List ℕ)
    → IsBytes src
    → header_size ≤ length src
    → hdr_pack (hdr_unpack src).1 ≡ take header_size src
unfolding hdr_unpack hdr_fields hdr_pack window
pack-unpack src b h = rw (
  take-eq-window src 32 h,
  be_bytes-at_four src b 0,
  be_bytes-at_two src b 4,
  be_bytes-at_two src b 6,
  be_bytes-at_four src b 8,
  be_bytes-at_four src b 12,
  be_bytes-at_eight src b 16,
  be_bytes-at_two src b 24,
  be_bytes-at_two src b 26,
  be_bytes-at_four src b 28,
)
