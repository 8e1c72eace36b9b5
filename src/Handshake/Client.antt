-- ===== src/Handshake/Client.antt =====
-- The client's handlers of src/core/rc_handshake.c.
use robov.Prelude.{ℕ, ◌+◌, List, [], ◌++◌, Bool, true, false, Option, none, some, if◌then◌else◌}
use robov.Proto.{hdr_init, hdr_pack, pkt_type_code, fin}
use robov.Conn.{handshaking, established}
use robov.Crypto.{Primitives, Session, Draws, Status, ok, failed, derive_session_keys}
use robov.Handshake.{
  ServerHello, finish_size, flag_reliable, flag_fin_ack, finish_bytes, build_transcript, ClientCtx,
  Context, no_context, client_context, server_context, Peer, done, refused, confused, Result, queue,
  attach, detach, enter, numbered, client_hello_bytes, client_hello_of, hello_header,
  client_hello_seen, server_hello_seen,
}

-- What follows when the ClientHello is written to the send ring.
unfoldable pub hello_queued : ClientCtx → Bool × Peer → Result
unfolding attach enter
hello_queued ctx (false, c) = (refused, [], c)
hello_queued ctx (true, c) =
    let (ev, c1) = enter (attach c (client_context ctx)) handshaking in (done, ev, c1)

-- The context for a key pair and a random value.
unfoldable pub client_ctx : List ℕ → List ℕ → List ℕ → Peer → ClientCtx
unfolding hello_header
client_ctx priv pub_key rnd c = record {
  client_privkey = priv;
  client_pubkey = pub_key;
  client_random = rnd;
  hello_hdr = hello_header c.local_seq c.conn.conn_id;
}

unfoldable pub hello_drawn : List ℕ → List ℕ → Option (List ℕ) → Peer → Result
unfolding hello_queued client_ctx client_hello_of queue numbered
hello_drawn priv pub_key none c = (refused, [], c)
hello_drawn priv pub_key (some rnd) c =
    let ctx = client_ctx priv pub_key rnd c in
    let buf = hdr_pack ctx.hello_hdr ++ client_hello_bytes (client_hello_of ctx c.conn.conn_id) in
    hello_queued ctx (queue (numbered c) buf)

unfoldable pub hello_keyed : Option (List ℕ × List ℕ) → Option (List ℕ) → Peer → Result
unfolding hello_drawn
hello_keyed none rnd c = (refused, [], c)
hello_keyed (some (priv, pub_key)) rnd c = hello_drawn priv pub_key rnd c

-- `rc_handshake_send_client_hello`: whether `calloc` succeeds, the key pair and the random value.
unfoldable pub send_client_hello : Bool → Option (List ℕ × List ℕ) → Option (List ℕ) → Peer → Result
unfolding hello_keyed
send_client_hello alloc keys rnd c = if alloc then hello_keyed keys rnd c else (refused, [], c)

-- What follows when the Finish message is written to the send ring.
unfoldable pub finish_queued : Bool × Peer → Result
unfolding enter detach
finish_queued (false, c) = (refused, [], c)
finish_queued (true, c) = let (ev, c1) = enter c established in (done, ev, detach c1)

-- The bytes of the FIN packet.
unfoldable pub finish_packet : Peer → List ℕ → List ℕ
finish_packet c verify =
    hdr_pack (record (hdr_init (pkt_type_code fin) c.local_seq c.conn.conn_id) {
      payload_len = finish_size;
      flags = flag_reliable + flag_fin_ack;
    })
    ++ finish_bytes (record { conn_id = c.conn.conn_id; verify_data = verify })

unfoldable pub finish_signed : Option (List ℕ) → Peer → Result
unfolding finish_queued finish_packet queue numbered
finish_signed none c = (refused, [], c)
finish_signed (some verify) c = finish_queued (queue (numbered c) (finish_packet c verify))

unfoldable pub finish_derived :
    Primitives → ServerHello → ClientCtx → Peer → Status × Session → Result
unfolding finish_signed build_transcript client_hello_seen server_hello_seen
finish_derived p sh ctx c (failed, s) = (refused, [], record c { session = s })
finish_derived p sh ctx c (ok, s) =
    let id = c.conn.conn_id in
    finish_signed
      (build_transcript p (client_hello_seen ctx id) (server_hello_seen sh id) s.master_secret)
      (record c { session = s })

unfoldable pub finish_shared :
    Primitives → Draws → ServerHello → ClientCtx → Option (List ℕ) → Peer → Result
unfolding finish_derived
finish_shared p draws sh ctx none c = (refused, [], c)
finish_shared p draws sh ctx (some secret) c =
    finish_derived p sh ctx c
      (derive_session_keys p draws secret ctx.client_random sh.server_random c.session)

unfoldable pub server_hello_with : Primitives → Draws → ServerHello → Context → Peer → Result
unfolding finish_shared
server_hello_with p draws sh no_context c = (refused, [], c)
server_hello_with p draws sh (server_context ctx) c = (confused, [], c)
server_hello_with p draws sh (client_context ctx) c =
    finish_shared p draws sh ctx (p.x25519 ctx.client_privkey sh.server_pubkey) c

-- `rc_handshake_process_server_hello`
unfoldable pub process_server_hello : Primitives → Draws → ServerHello → Peer → Result
unfolding server_hello_with
process_server_hello p draws sh c = server_hello_with p draws sh c.user_data c
