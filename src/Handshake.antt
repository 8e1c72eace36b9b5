-- ===== src/Handshake.antt =====
-- src/core/rc_handshake.c: the messages that the two ends build, the transcripts that they
-- authenticate, and the handlers. What OpenSSL computes or draws is an argument.
pub mod Client
pub mod Server
pub mod Verify
pub mod Transcript
pub mod Run
pub mod State
mod Examples
use robov.Prelude.{
  ℕ, zero, suc, ◌+◌, ◌/◌, ◌%◌, ◌^◌, List, [], ◌∷◌, ◌++◌, Bool, true, false, Option, none, some,
  if◌then◌else◌, ◌==◌, length, take, replicate, add32, u16,
}
use robov.Proto.{Header, hdr_init, hdr_pack, pkt_type_code, hello, hello_ack}
use robov.Ring
use robov.Conn.{Conn, ConnState, null, context, Event, set_state}
use robov.Crypto.{Primitives, Session}

-- The bytes of a number in the host's order, the lowest first.
unfoldable pub le_bytes : ℕ → ℕ → List ℕ
le_bytes zero x = []
le_bytes (suc k) x = x % 256 ∷ le_bytes k (x / 256)

-- `rc_client_hello_t`
pub record ClientHello : Type 0 where
  pub conn_id : ℕ
  pub client_random : List ℕ
  pub client_pubkey : List ℕ
  pub cipher_suites : List ℕ
  pub extensions_len : ℕ
  pub extensions : List ℕ

-- `rc_server_hello_t`
pub record ServerHello : Type 0 where
  pub conn_id : ℕ
  pub server_random : List ℕ
  pub server_pubkey : List ℕ
  pub selected_cipher : ℕ
  pub session_id : ℕ
  pub extensions_len : ℕ
  pub extensions : List ℕ

-- `rc_finish_t`
pub record Finish : Type 0 where
  pub conn_id : ℕ
  pub verify_data : List ℕ

-- The sizes of the three packed structs.
abbrev pub client_hello_size : ℕ
client_hello_size = 206

abbrev pub server_hello_size : ℕ
server_hello_size = 204

abbrev pub finish_size : ℕ
finish_size = 36

-- The suites `RC_CS_AES_256_GCM` and `RC_CS_CHACHA20_POLY1305`.
abbrev pub suite_aes : ℕ
suite_aes = 1

abbrev pub suite_chacha : ℕ
suite_chacha = 2

-- `RC_FLAG_RELIABLE` and `RC_FLAG_FIN_ACK`
abbrev pub flag_reliable : ℕ
flag_reliable = 16

abbrev pub flag_fin_ack : ℕ
flag_fin_ack = 8

unfoldable pub suite_bytes : List ℕ → List ℕ
unfolding le_bytes
suite_bytes [] = []
suite_bytes (x ∷ xs) = le_bytes 2 x ++ suite_bytes xs

-- The structs as `memcpy` takes them.
unfoldable pub client_hello_bytes : ClientHello → List ℕ
unfolding le_bytes suite_bytes
client_hello_bytes h =
    le_bytes 4 h.conn_id
    ++ (h.client_random
        ++ (h.client_pubkey
            ++ (suite_bytes h.cipher_suites ++ (le_bytes 2 h.extensions_len ++ h.extensions))))

unfoldable pub server_hello_bytes : ServerHello → List ℕ
unfolding le_bytes
server_hello_bytes h =
    le_bytes 4 h.conn_id
    ++ (h.server_random
        ++ (h.server_pubkey
            ++ (le_bytes 2 h.selected_cipher
                ++ (le_bytes 4 h.session_id ++ (le_bytes 2 h.extensions_len ++ h.extensions)))))

unfoldable pub finish_bytes : Finish → List ℕ
unfolding le_bytes
finish_bytes f = le_bytes 4 f.conn_id ++ f.verify_data

-- `build_transcript`, where the allocation succeeds.
unfoldable pub build_transcript : Primitives → List ℕ → List ℕ → List ℕ → Option (List ℕ)
build_transcript p ch sh master_secret = p.hmac (take 32 master_secret) (ch ++ sh)

-- `hs_client_ctx_t` and `hs_server_ctx_t`
pub record ClientCtx : Type 0 where
  pub client_privkey : List ℕ
  pub client_pubkey : List ℕ
  pub client_random : List ℕ
  pub hello_hdr : Header

pub record ServerCtx : Type 0 where
  pub server_privkey : List ℕ
  pub server_pubkey : List ℕ
  pub server_random : List ℕ
  pub client_random : List ℕ
  pub client_pubkey : List ℕ
  pub session_id : ℕ

-- What `user_data` points to during a handshake.
pub data Context : Type 0 where
  no_context : Context
  client_context : ClientCtx → Context
  server_context : ServerCtx → Context

-- The part of `struct rc_conn` that the handshake works on: that of Conn, with the sequence
-- number, the session, and what `user_data` points to.
pub record Peer : Type 0 where
  pub conn : Conn
  pub local_seq : ℕ
  pub session : Session
  pub user_data : Context

-- What a call returns: 0, -1, or `confused` where it would read the context of the other end.
pub data Outcome : Type 0 where
  done refused confused : Outcome

abbrev pub Result : Type 0
Result = Outcome × List Event × Peer

-- `rc_ringbuf_write(&conn->send_buf, buf, sizeof(buf))`: whether all was written, and the object.
unfoldable pub queue : Peer → List ℕ → Bool × Peer
queue c buf =
    let (written, ring) = Ring.write c.conn.send_buf buf in
    (written == length buf, record c { conn = record (c.conn) { send_buf = ring } })

-- `conn->user_data` is set to a context, or to NULL.
unfoldable pub attach : Peer → Context → Peer
attach c ctx = record c { user_data = ctx; conn = record (c.conn) { user_data = context } }

unfoldable pub detach : Peer → Peer
detach c = record c { user_data = no_context; conn = record (c.conn) { user_data = null } }

-- `rc_conn_set_state` within a handler: what it returns is not looked at.
unfoldable pub enter : Peer → ConnState → List Event × Peer
enter c new = let (r, ev, conn) = set_state c.conn new in (ev, record c { conn = conn })

-- The next sequence number is used.
unfoldable pub numbered : Peer → Peer
numbered c = record c { local_seq = add32 c.local_seq 1 }

-- The ClientHello that `rc_handshake_send_client_hello` sends and
-- `rc_handshake_process_server_hello` builds again.
unfoldable pub client_hello_of : ClientCtx → ℕ → ClientHello
client_hello_of ctx id = record {
  conn_id = id;
  client_random = ctx.client_random;
  client_pubkey = ctx.client_pubkey;
  cipher_suites = suite_aes ∷ suite_chacha ∷ 0 ∷ 0 ∷ [];
  extensions_len = 0;
  extensions = replicate 128 0;
}

-- The header of the ClientHello.
unfoldable pub hello_header : ℕ → ℕ → Header
hello_header seq id = record (hdr_init (pkt_type_code hello) seq id) {
  payload_len = client_hello_size;
  flags = flag_reliable;
}

-- The ClientHello as the client's transcript holds it.
unfoldable pub client_hello_seen : ClientCtx → ℕ → List ℕ
client_hello_seen ctx id = hdr_pack ctx.hello_hdr ++ client_hello_bytes (client_hello_of ctx id)

-- The header of the ServerHello in both transcripts, and the ServerHello.
unfoldable pub server_hello_seen : ServerHello → ℕ → List ℕ
server_hello_seen sh id =
    hdr_pack (record (hdr_init (pkt_type_code hello_ack) 0 id) { payload_len = server_hello_size })
    ++ server_hello_bytes sh

-- The ClientHello as the server's transcript holds it: `rc_handshake_process_finish` builds it from
-- what it has kept.
unfoldable pub client_hello_rebuilt : ServerCtx → ℕ → List ℕ
client_hello_rebuilt ctx id =
    hdr_pack (record (hdr_init (pkt_type_code hello) 0 id) { payload_len = client_hello_size })
    ++ client_hello_bytes (record {
      conn_id = id;
      client_random = ctx.client_random;
      client_pubkey = ctx.client_pubkey;
      cipher_suites = 0 ∷ 0 ∷ 0 ∷ 0 ∷ [];
      extensions_len = 0;
      extensions = replicate 128 0;
    })

-- The ServerHello that the server sends and builds again.
unfoldable pub server_hello_of : ServerCtx → ℕ → ℕ → ServerHello
server_hello_of ctx algo id = record {
  conn_id = id;
  server_random = ctx.server_random;
  server_pubkey = ctx.server_pubkey;
  selected_cipher = u16 algo;
  session_id = ctx.session_id;
  extensions_len = 0;
  extensions = replicate 128 0;
}

-- `rc_handshake_resume`
pub resume : Peer → ℕ → Outcome × Peer
resume c session_id = if session_id == 0 then (refused, c) else (
  refused,
  record c { session = record (c.session) { is_resumed = false; session_id = session_id } },
)
