-- ===== src/Relay/Forward/Wire.antt =====
-- What `rc_relay_forward` of src/core/rc_relay.c puts on the wire, by the byte order of its machine.
use robov.Prelude.{ℕ, suc, ◌^◌, ◌<◌, ◌≡◌, ap, ◌∙◌, List, arith, drop}
use robov.Proto.{hdr_fields, hdr_check, hdr_unpack, header_size, unpack_ok, unpack_bad}
use robov.Proto.Bytes.{be_at, IsBytes}
use robov.Proto.RoundTrip.{InRange, unpack_packed}
use robov.Relay.Forward.{Endian, little, big, le_at, host_at, overlay, readdress}

overlay-InRange : (e : Endian) (pkt : List ℕ) → IsBytes pkt → InRange (overlay e pkt)
unfolding overlay host_at be_at le_at
overlay-InRange e pkt b = at e
  where
    two : (e : Endian) (off : ℕ) → host_at e 2 pkt off < 2 ^ 16
    two little off = omega (arith, b off, b (suc off))
    two big off = omega (arith, b off, b (suc off))

    four : (e : Endian) (off : ℕ) → host_at e 4 pkt off < 2 ^ 32
    four little off = omega (arith, b off, b (suc off), b (suc (suc off)), b (suc (suc (suc off))))
    four big off = omega (arith, b off, b (suc off), b (suc (suc off)), b (suc (suc (suc off))))

    eight : (e : Endian) (off : ℕ) → host_at e 8 pkt off < 2 ^ 64
    eight little off = omega (
      arith,
      b off,
      b (suc off),
      b (suc (suc off)),
      b (suc (suc (suc off))),
      b (suc (suc (suc (suc off)))),
      b (suc (suc (suc (suc (suc off))))),
      b (suc (suc (suc (suc (suc (suc off)))))),
      b (suc (suc (suc (suc (suc (suc (suc off))))))),
    )
    eight big off = omega (
      arith,
      b off,
      b (suc off),
      b (suc (suc off)),
      b (suc (suc (suc off))),
      b (suc (suc (suc (suc off)))),
      b (suc (suc (suc (suc (suc off))))),
      b (suc (suc (suc (suc (suc (suc off)))))),
      b (suc (suc (suc (suc (suc (suc (suc off))))))),
    )

    at : (e : Endian) → InRange (overlay e pkt)
    at e = record {
      magic_in = four e 0;
      version_in = two e 4;
      kind_in = two e 6;
      seq_in = four e 8;
      ack_in = four e 12;
      timestamp_in = eight e 16;
      payload_len_in = two e 24;
      flags_in = two e 26;
      conn_id_in = four e 28;
    }

readdress-unpack :
    (e : Endian) (pkt : List ℕ) (conn_id : ℕ)
    → IsBytes pkt
    → conn_id < 2 ^ 32
    → let h = record (overlay e pkt) { conn_id = conn_id } in
      hdr_unpack (readdress e pkt conn_id) ≡ (hdr_check h, h)
unfolding readdress
readdress-unpack e pkt conn_id b c =
    let v = overlay-InRange e pkt b in
    unpack_packed (record (overlay e pkt) { conn_id = conn_id }) (drop header_size pkt)
      (record {
        magic_in = v.magic_in;
        version_in = v.version_in;
        kind_in = v.kind_in;
        seq_in = v.seq_in;
        ack_in = v.ack_in;
        timestamp_in = v.timestamp_in;
        payload_len_in = v.payload_len_in;
        flags_in = v.flags_in;
        conn_id_in = c;
      })

-- On a big-endian machine the packet that `rc_relay_forward` sends in place of a list of bytes
-- unpacks to the header of the packet it took, with the destination's identifier, of 32 bits, in
-- place of the source's, and to the same result.
pub readdress_big :
    (pkt : List ℕ) (conn_id : ℕ)
    → IsBytes pkt
    → conn_id < 2 ^ 32
    → let (r, h) = hdr_unpack pkt in
      hdr_unpack (readdress big pkt conn_id) ≡ (r, record h { conn_id = conn_id })
unfolding hdr_unpack hdr_fields hdr_check overlay host_at
readdress_big pkt conn_id b c = readdress-unpack big pkt conn_id b c

-- On a little-endian machine every list of bytes whose header is accepted leaves
-- `rc_relay_forward`, for a destination's identifier of 32 bits, with a header that
-- `rc_hdr_unpack` refuses.
pub readdress_little :
    (pkt : List ℕ) (conn_id : ℕ)
    → IsBytes pkt
    → conn_id < 2 ^ 32
    → (hdr_unpack pkt).0 ≡ unpack_ok
    → (hdr_unpack (readdress little pkt conn_id)).0 ≡ unpack_bad
unfolding hdr_unpack hdr_fields hdr_check overlay host_at be_at le_at
readdress_little pkt conn_id b c ok =
    ap (λ r. r.0) (readdress-unpack little pkt conn_id b c) ∙ turned ok
  where
    turned :
        hdr_check (hdr_fields pkt) ≡ unpack_ok
        → hdr_check (record (overlay little pkt) { conn_id = conn_id }) ≡ unpack_bad
    turned h = ground (arith, h, b 0, b 1, b 2, b 3)
