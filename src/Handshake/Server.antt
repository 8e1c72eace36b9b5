-- ===== src/Handshake/Server.antt =====
-- The server's handlers of src/core/rc_handshake.c.
use robov.Prelude.{
  ℕ, zero, suc, ◌==◌, List, [], ◌∷◌, ◌++◌, Bool, true, false, Option, none, some, if◌then◌else◌,
  get_or, drop, take, bit_or, bit_xor, u8,
}
use robov.Proto.{hdr_init, hdr_pack, pkt_type_code, hello_ack}
use robov.Conn.{established}
use robov.Crypto.{
  Primitives, Session, Draws, Status, ok, failed, aes_256_gcm, chacha20_poly1305,
  derive_session_keys,
}
use robov.Handshake.{
  ClientHello, Finish, ServerCtx, suite_aes, suite_chacha, server_hello_size, flag_reliable,
  server_hello_bytes, build_transcript, Context, no_context, client_context, server_context, Peer,
  done, refused, confused, Result, queue, attach, detach, enter, numbered, client_hello_rebuilt,
  server_hello_seen, server_hello_of,
}

-- The loop over the client's four cipher suites.
unfoldable pub select_suite : List ℕ → ℕ
select_suite [] = aes_256_gcm
select_suite (x ∷ xs) =
    let rest = select_suite xs in
    if x == suite_chacha then chacha20_poly1305 else if x == suite_aes then aes_256_gcm else rest

-- What follows when the ServerHello is written to the send ring.
unfoldable pub shello_queued : ServerCtx → Bool × Peer → Result
unfolding attach
shello_queued ctx (false, c) = (refused, [], c)
shello_queued ctx (true, c) = (done, [], attach c (server_context ctx))

-- The bytes of the HELLO_ACK packet.
unfoldable pub shello_packet : ServerCtx → ℕ → Peer → List ℕ
unfolding server_hello_of
shello_packet ctx algo c =
    hdr_pack (record (hdr_init (pkt_type_code hello_ack) c.local_seq c.conn.conn_id) {
      payload_len = server_hello_size;
      flags = flag_reliable;
    })
    ++ server_hello_bytes (server_hello_of ctx algo c.conn.conn_id)

unfoldable pub shello_derived : ServerCtx → ℕ → Peer → Status × Session → Result
unfolding shello_queued shello_packet queue numbered
shello_derived ctx algo c (failed, s) = (refused, [], record c { session = s })
shello_derived ctx algo c (ok, s) =
    shello_queued ctx (queue (numbered (record c { session = s })) (shello_packet ctx algo c))

unfoldable pub shello_shared : Primitives → Draws → ServerCtx → ℕ → Option (List ℕ) → Peer → Result
unfolding shello_derived
shello_shared p draws ctx algo none c = (refused, [], c)
shello_shared p draws ctx algo (some secret) c =
    shello_derived ctx algo c
      (derive_session_keys p draws secret ctx.client_random ctx.server_random c.session)

-- What `rc_handshake_process_client_hello` draws: its key pair, its random value and the ticket.
pub record ServerDraws : Type 0 where
  pub alloc : Bool
  pub keys : Option (List ℕ × List ℕ)
  pub random : Option (List ℕ)
  pub ticket : Option ℕ
  pub salts : Draws

unfoldable pub server_ctx : List ℕ → List ℕ → List ℕ → ℕ → ClientHello → ServerCtx
server_ctx priv pub_key rnd ticket ch = record {
  server_privkey = priv;
  server_pubkey = pub_key;
  server_random = rnd;
  client_random = ch.client_random;
  client_pubkey = ch.client_pubkey;
  session_id = ticket;
}

unfoldable pub shello_ticket :
    Primitives → Draws → List ℕ → List ℕ → List ℕ → Option ℕ → ClientHello → Peer → Result
unfolding shello_shared server_ctx select_suite
shello_ticket p salts priv pub_key rnd ticket ch c0 =
    let algo = select_suite (take 4 ch.cipher_suites) in
    let c = record c0 { session = record (c0.session) { algo = algo } } in ticketed ticket algo c
  where
    ticketed : Option ℕ → ℕ → Peer → Result
    ticketed none algo c = (refused, [], c)
    ticketed (some id) algo c =
        let ctx = server_ctx priv pub_key rnd id ch in
        shello_shared p salts ctx algo (p.x25519 priv ctx.client_pubkey) c

unfoldable pub shello_drawn :
    Primitives → ServerDraws → List ℕ → List ℕ → Option (List ℕ) → ClientHello → Peer → Result
unfolding shello_ticket
shello_drawn p d priv pub_key none ch c = (refused, [], c)
shello_drawn p d priv pub_key (some rnd) ch c =
    shello_ticket p d.salts priv pub_key rnd d.ticket ch c

unfoldable pub shello_keyed :
    Primitives → ServerDraws → Option (List ℕ × List ℕ) → ClientHello → Peer → Result
unfolding shello_drawn
shello_keyed p d none ch c = (refused, [], c)
shello_keyed p d (some (priv, pub_key)) ch c = shello_drawn p d priv pub_key d.random ch c

-- `rc_handshake_process_client_hello`
unfoldable pub process_client_hello : Primitives → ServerDraws → ClientHello → Peer → Result
unfolding shello_keyed
process_client_hello p d ch c = if d.alloc then shello_keyed p d d.keys ch c else (refused, [], c)

-- The loop `diff |= expected[i] ^ finish->verify_data[i]` over the next `k` bytes.
unfoldable pub verify_diff : ℕ → List ℕ → List ℕ → ℕ → ℕ
verify_diff zero es vs diff = diff
verify_diff (suc k) es vs diff =
    verify_diff k (drop 1 es) (drop 1 vs)
      (u8 (bit_or diff (bit_xor (get_or es 0 0) (get_or vs 0 0))))

-- Whether the arrays of 32 bytes show no difference.
unfoldable pub verify_ok : List ℕ → List ℕ → Bool
unfolding verify_diff
verify_ok expected verify = verify_diff 32 expected verify 0 == 0

unfoldable pub finish_expected : Option (List ℕ) → Finish → Peer → Result
unfolding enter detach
finish_expected none f c = (refused, [], c)
finish_expected (some expected) f c =
    if verify_ok expected f.verify_data
    then (let (ev, c1) = enter c established in (done, ev, detach c1))
    else (refused, [], c)

-- What the server authenticates.
unfoldable pub expected_verify : Primitives → ServerCtx → Peer → Option (List ℕ)
unfolding build_transcript client_hello_rebuilt server_hello_seen server_hello_of
expected_verify p ctx c =
    let id = c.conn.conn_id in
    build_transcript p (client_hello_rebuilt ctx id)
      (server_hello_seen (server_hello_of ctx c.session.algo id) id) c.session.master_secret

unfoldable pub finish_with : Primitives → Finish → Context → Peer → Result
unfolding finish_expected expected_verify
finish_with p f no_context c = (refused, [], c)
finish_with p f (client_context ctx) c = (confused, [], c)
finish_with p f (server_context ctx) c = finish_expected (expected_verify p ctx c) f c

-- `rc_handshake_process_finish`
unfoldable pub process_finish : Primitives → Finish → Peer → Result
unfolding finish_with
process_finish p f c = finish_with p f c.user_data c
