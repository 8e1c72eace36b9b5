-- ===== src/Packet/Messages.antt =====
-- The helpers of include/proto.h that encode one kind of message each.
use robov.Prelude.{
  ℕ, ◌+◌, ◌^◌, ◌<◌, ◌≤◌, ◌≡◌, refl, ap, ap₂, ◌∙◌, List, ◌++◌, none, some, if◌then◌else◌, ltb,
  if_elim, length, length-take, take, arith, u16,
}
use robov.Packet.{
  SumState, Fields, Encoded, encoded, decoded, packet_encode, packet_decode, packet_header,
  packet_version, packet_reliable, low_bytes, msg_handshake_req, msg_handshake_res,
  msg_handshake_ack, msg_ping, msg_pong, msg_disconnect,
}
use robov.Packet.Sum.{IsFilled}
use robov.Packet.RoundTrip.{InRange, carried, decode-encode}

abbrev pub max_token_len : ℕ
max_token_len = 512

-- A packet from or to the server itself.
abbrev pub handshake_fields : ℕ → ℕ → Fields
handshake_fields kind session = record {
  kind = kind;
  flags = packet_reliable;
  session_id = session;
  seq_num = 0;
}

-- What `rc_encode_handshake_req` does: it returns as the encoder does, or overruns its buffer of 512
-- bytes for the token.
pub data Requested : Type 0 where
  requested : Encoded × List ℕ × SumState → Requested
  overrun : Requested

-- `rc_encode_handshake_req`. A NULL token is the empty one.
pub encode_handshake_req : SumState → ℕ → ℕ → ℕ → List ℕ → List ℕ → Requested
encode_handshake_req s client_id caps mtu token out =
    let tlen = u16 (length token) in
    let buf =
      low_bytes 4 packet_version
      ++ (low_bytes 4 client_id
          ++ (low_bytes 4 caps ++ (low_bytes 2 mtu ++ (low_bytes 2 tlen ++ take tlen token)))) in
    if ltb max_token_len tlen
    then overrun
    else requested
        (packet_encode s (handshake_fields msg_handshake_req 0) (some buf) (u16 (16 + tlen)) out)

-- `rc_encode_handshake_res`
pub encode_handshake_res : SumState → ℕ → ℕ → ℕ → ℕ → ℕ → ℕ → List ℕ → Encoded × List ℕ × SumState
encode_handshake_res s session_id server_id caps mtu port status out =
    packet_encode s (handshake_fields msg_handshake_res 0)
      (some (
        low_bytes 4 session_id
        ++ (low_bytes 4 server_id
            ++ (low_bytes 4 caps
                ++ (low_bytes 2 mtu
                    ++ (low_bytes 2 port ++ (low_bytes 1 status ++ low_bytes 3 0)))))))
      20 out

-- `rc_encode_handshake_ack`
pub encode_handshake_ack : SumState → ℕ → ℕ → ℕ → List ℕ → Encoded × List ℕ × SumState
encode_handshake_ack s session_id client_nonce server_nonce out =
    packet_encode s (handshake_fields msg_handshake_ack session_id)
      (some (low_bytes 4 session_id ++ (low_bytes 4 client_nonce ++ low_bytes 4 server_nonce))) 12
      out

-- `rc_encode_ping` and `rc_encode_pong`
pub encode_ping : SumState → ℕ → ℕ → List ℕ → Encoded × List ℕ × SumState
encode_ping s session_id seq out =
    packet_encode s (record { kind = msg_ping; flags = 0; session_id = session_id; seq_num = seq })
      none 0 out

pub encode_pong : SumState → ℕ → ℕ → List ℕ → Encoded × List ℕ × SumState
encode_pong s session_id seq out =
    packet_encode s (record { kind = msg_pong; flags = 0; session_id = session_id; seq_num = seq })
      none 0 out

-- The length of a message that `rc_encode_disconnect` sends: `strlen` as `uint16_t`, at most 256.
pub message_len : List ℕ → ℕ
message_len msg = if ltb 256 (u16 (length msg)) then 256 else u16 (length msg)

-- Its payload. A NULL message is the empty one.
pub disconnect_payload : ℕ → List ℕ → List ℕ
unfolding message_len
disconnect_payload reason msg =
    low_bytes 2 reason ++ (low_bytes 2 (message_len msg) ++ take (message_len msg) msg)

-- `rc_encode_disconnect`
pub encode_disconnect : SumState → ℕ → ℕ → List ℕ → List ℕ → Encoded × List ℕ × SumState
unfolding disconnect_payload
encode_disconnect s session_id reason msg out =
    packet_encode s (handshake_fields msg_disconnect session_id)
      (some (disconnect_payload reason msg)) (u16 (4 + message_len msg)) out

message_len-le : (msg : List ℕ) → (message_len msg ≤ length msg) × (message_len msg ≤ 256)
unfolding message_len
message_len-le msg =
    if_elim (λ n. (n ≤ length msg) × (n ≤ 256)) (ltb 256 (u16 (length msg)))
      (λ e. (ground (arith, e), omega arith)) (λ e. (omega arith, ground (arith, e)))

length-disconnect :
    (reason : ℕ) (msg : List ℕ) → length (disconnect_payload reason msg) ≡ 4 + message_len msg
unfolding disconnect_payload low_bytes
length-disconnect reason msg =
    omega (arith, length-take (message_len msg) msg, (message_len-le msg).0)

disconnect-carried :
    (reason : ℕ) (msg : List ℕ)
    → carried (disconnect_payload reason msg) ≡ some (disconnect_payload reason msg)
unfolding carried disconnect_payload low_bytes
disconnect-carried reason msg = refl

-- A disconnect message for a session below 2 ^ 32, encoded into a buffer with room for 280 bytes, is
-- decoded to its kind, session and payload: the reason, a length, and that many bytes from the
-- start of the text, of which there are never more than 256.
pub disconnect_carries :
    (s s' : SumState) (session_id reason : ℕ) (msg out : List ℕ)
    → IsFilled s
    → IsFilled s'
    → session_id < 2 ^ 32
    → 280 ≤ length out
    → let (r, bytes, s1) = encode_disconnect s session_id reason msg out in
      let total = packet_header + (4 + message_len msg) + 4 in
      (r ≡ encoded total)
      × ((packet_decode s' bytes).0
          ≡ decoded
              (handshake_fields msg_disconnect session_id)
              (some (disconnect_payload reason msg))
              total)
      × (message_len msg ≤ 256)
unfolding encode_disconnect
disconnect_carries s s' session_id reason msg out r r' h room =
    let f : Fields = handshake_fields msg_disconnect session_id in
    let p : List ℕ = disconnect_payload reason msg in
    let size = length-disconnect reason msg in
    let short = (message_len-le msg).1 in
    let v : InRange f = record {
      kind_in = omega arith;
      flags_in = omega arith;
      session_in = h;
      seq_in = omega arith;
    } in
    let whole =
      decode-encode s s' f p out r r' v (omega (arith, size, short))
        (omega (arith, size, short, room)) in
    let length_given : u16 (4 + message_len msg) ≡ length p = omega (arith, size, short) in
    let same : encode_disconnect s session_id reason msg out
        ≡ packet_encode s f (some p) (length p) out =
      ap (λ n. packet_encode s f (some p) n out) length_given in
    (
      ap (λ (q : Encoded × List ℕ × SumState). q.0) same
          ∙ whole.0
          ∙ ap (λ n. encoded (packet_header + n + 4)) size,
      ap (λ (q : Encoded × List ℕ × SumState). (packet_decode s' q.1).0) same
          ∙ whole.1
          ∙ ap₂ (λ o n. decoded f o (packet_header + n + 4)) (disconnect-carried reason msg) size,
      short,
    )
