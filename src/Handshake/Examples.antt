-- ===== src/Handshake/Examples.antt =====
-- The handlers of the handshake at small inputs, with toy primitives.
use robov.Prelude.{
  ℕ, false, ◌≡◌, ◌≢◌, refl, ap, get_or, List, [], ◌∷◌, ◌++◌, none, some, replicate, take, arith,
}
use robov.Ring
use robov.Ring.{Ring}
use robov.Proto.{hdr_pack, hdr_init, pkt_type_code}
use robov.Proto.Bytes.{be_bytes, all_bytes}
use robov.Conn.{ConnState, closed, handshaking, null}
use robov.Crypto.{Primitives, Draws, session_init, known_algo, derive_session_keys}
use robov.Crypto.Rotation.{ends}
use robov.Handshake.{
  Finish, ClientCtx, ServerCtx, no_context, client_context, server_context, Peer, refused,
  hello_header, client_hello_of, server_hello_of, build_transcript, client_hello_seen, finish_bytes,
}
use robov.Handshake.Client.{process_server_hello}
use robov.Handshake.Server.{
  ServerDraws, server_ctx, process_client_hello, process_finish, expected_verify,
}
use robov.Handshake.Verify.{all_bytes-Bytes}
use robov.Handshake.Transcript.{IsMac, accepted, process_finish_lem, finish_rejected}
use robov.Handshake.Run.{drawn, session_of, served, finished, handshake_shares_ends}
use robov.Handshake.State.{state_of, server_state_kept}

-- The HMAC is the first 32 bytes of the text.
abbrev toy : Primitives
toy = record {
  seal = λ algo key nonce aad text. some (text, replicate 16 7);
  unseal = λ algo key nonce aad body tag. some body;
  hkdf = λ secret salt info n. some (replicate n 3);
  hmac = λ key text. some (take 32 text);
  x25519 = λ mine theirs. some (replicate 32 9);
}

abbrev ring : Ring
ring = record { buf = replicate 512 0; size = 512; mask = 511; head = 0; tail = 0 }

abbrev peer : ConnState → Peer
peer st = record {
  conn = record {
    conn_id = 77;
    fd = none;
    state = st;
    refcnt = 1;
    send_buf = ring;
    recv_buf = ring;
    last_recv = record { tv_sec = 0; tv_usec = 0 };
    rto_ms = 200;
    user_data = null;
    on_state = false;
  };
  local_seq = 0;
  session = session_init 1;
  user_data = no_context;
}

abbrev client_ctx : ClientCtx
client_ctx = record {
  client_privkey = replicate 32 1;
  client_pubkey = replicate 32 2;
  client_random = replicate 32 3;
  hello_hdr = hello_header 0 77;
}

abbrev client : Peer
client = record (peer handshaking) { user_data = client_context client_ctx }

abbrev salts : Draws
salts = (some (replicate 12 1), some (replicate 12 2))

abbrev draws : ServerDraws
draws = drawn (replicate 32 4) (replicate 32 5) (replicate 32 6) 9 salts

abbrev finish : Finish
finish = record { conn_id = 77; verify_data = replicate 32 0 }

handshake_shares_ends_example :
    ends (
      session_of (
        finished toy client_ctx client
          (peer closed)
          (replicate 32 4)
          (replicate 32 5)
          (replicate 32 6)
          9
          salts
          salts))
    ≡ ends (
        session_of (
          served toy client_ctx client
            (peer closed)
            (replicate 32 4)
            (replicate 32 5)
            (replicate 32 6)
            9
            salts
            salts))
unfolding session_init known_algo process_server_hello derive_session_keys Ring.write hdr_pack
    be_bytes finish_bytes
handshake_shares_ends_example =
    handshake_shares_ends toy client_ctx client (peer closed) (replicate 32 4) (replicate 32 5)
      (replicate 32 6) 9 salts salts refl refl refl refl

server_state_kept_example :
    state_of (
      process_finish toy finish
        (process_client_hello toy draws (client_hello_of client_ctx 77) (peer closed)).2)
    ≡ closed
server_state_kept_example =
    server_state_kept toy draws (client_hello_of client_ctx 77) finish (peer closed) (λ e. cc)

abbrev served_ctx : ServerCtx
served_ctx =
    server_ctx (replicate 32 4) (replicate 32 5) (replicate 32 6) 9 (client_hello_of client_ctx 77)

abbrev server : Peer
server = record (peer handshaking) { user_data = server_context served_ctx }

-- What the server and the client sign.
abbrev expected : List ℕ
expected = 82 ∷ 79 ∷ 66 ∷ 79 ∷ 0 ∷ 1 ∷ 0 ∷ 1 ∷ replicate 17 0 ++ 206 ∷ 0 ∷ 0 ∷ 0 ∷ 0 ∷ 0 ∷ 77 ∷ []

abbrev signed : List ℕ
signed = 82 ∷ 79 ∷ 66 ∷ 79 ∷ 0 ∷ 1 ∷ 0 ∷ 1 ∷ replicate 17 0 ++ 206 ∷ 0 ∷ 16 ∷ 0 ∷ 0 ∷ 0 ∷ 77 ∷ []

abbrev sent : Finish
sent = record { conn_id = 77; verify_data = signed }

expected-IsMac : IsMac expected
unfolding all_bytes
expected-IsMac = record { mac_length = refl; mac_bytes = all_bytes-Bytes expected refl }

signed-IsMac : IsMac signed
unfolding all_bytes
signed-IsMac = record { mac_length = refl; mac_bytes = all_bytes-Bytes signed refl }

process_finish_lem_example :
    (expected ≡ signed → process_finish toy sent server ≡ accepted sent server expected)
    × (expected ≢ signed → process_finish toy sent server ≡ (refused, [], server))
unfolding expected_verify hdr_pack hdr_init be_bytes pkt_type_code session_init
process_finish_lem_example =
    process_finish_lem toy sent server served_ctx expected refl refl expected-IsMac signed-IsMac

finish_rejected_example : process_finish toy sent server ≡ (refused, [], server)
unfolding expected_verify hdr_pack hdr_init be_bytes pkt_type_code session_init hello_header
    client_hello_seen build_transcript
finish_rejected_example =
    finish_rejected toy server client_ctx served_ctx (server_hello_of served_ctx 1 77) sent expected
      77 0 refl refl refl refl expected-IsMac signed-IsMac
      (λ q. absurd (omega (arith, ap (λ xs. get_or xs 27 0) q)))
