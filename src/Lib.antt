-- ===== src/Lib.antt =====
-- A model of the core of the RoboV connection library (src/core, include/rc_*.h), with the theorems that
-- say what its parts do.
--
-- The program carries packets between robots and their operators over UDP. A packet has a header of 32
-- bytes in network order and a payload. A connection has two byte rings, a state machine, a congestion
-- window and a queue of the reliable packets in flight; a pool finds connections by number. A relay
-- forwards packets between two ends that cannot reach each other: it reads the connection's number from
-- the header, looks up the route, checks the session's bandwidth and sends the packet on. A handshake
-- agrees on the keys of a session, and the record layer seals what goes over it; two ends try to reach
-- each other directly before they fall back to a relay. The services around the core have a packet
-- format and a set of primitives of their own.
--
-- The files, and what they model:
--   * Prelude: names of the libraries, lists and tests over the native numbers, machine words, bits.
--   * Proto: src/core/rc_proto.c and include/rc_proto.h. `rc_hdr_init` is `hdr_init`, `rc_hdr_pack` is
--     `hdr_pack`, `rc_hdr_unpack` is `hdr_unpack`, `rc_pkt_validate` is `pkt_validate`. Proto/Crc is
--     `rc_crc32` with its static table as state. A buffer is the list of its bytes.
--   * Ring: `rc_ringbuf_t` of src/core/rc_conn.c and include/rc_conn.h. `rc_ringbuf_init`, `_destroy`,
--     `_write` and `_read` are `init`, `destroy`, `write` and `read`. Ring/Inv has the representation
--     invariant and the bytes that a ring holds, Ring/Fifo the bounded queue that it refines, Ring/Life
--     sequences of calls.
--   * Retransmit: src/core/rc_retransmit.c. The circular array of 4096 entries is a list; `slots` and
--     `sweep` walk it as the loops do. Retransmit/Loss is `rc_retx_detect_loss`, one function to a scan.
--   * Conn: the state machine, `rc_conn_close` and `rc_conn_release` of src/core/rc_conn.c; whether
--     `on_state` is set is a field. Conn/Pool is the hash table of connections, whose chains run through
--     `user_data`.
--   * Relay: src/core/rc_relay.c, with forwarding, statistics and the purge in Relay/Forward.
--   * Congestion: src/core/rc_congestion.c and include/rc_congestion.h.
--   * Timers: the timer wheel of src/core/rc_epoll.c: `rc_timer_add` is `timer_add`, and `tick` is one
--     round of `process_timers`. The callbacks are events, and touch no timer.
--   * Crypto: src/core/rc_crypto.c: nonces, contexts, session keys, their rotation, and the record layer
--     (`rc_record_encrypt` is `record_encrypt`). The primitives of OpenSSL are parameters.
--   * Handshake: src/core/rc_handshake.c. The messages and the contexts stand in Handshake itself, the
--     handlers of the client in Handshake/Client and of the server in Handshake/Server. Handshake/Run puts
--     the handlers of both ends one after the other, as the messages go between them.
--   * P2p: src/core/rc_p2p.c: candidates, hole punching and the fallback, and STUN in P2p/Stun.
--   * Packet: include/proto.h, the packets of the services, with the message helpers in Packet/Messages.
--   * Spsc: include/ringbuf.h, the ring of the services: `offer`, `poll` and `reset` are
--     `rc_ringbuf_write`, `_read` and `_reset` of that header.
--   * Cipher: include/crypto.h, the primitives of the services: Cipher/Sha is SHA-256 and HMAC, Cipher/Aes
--     the block cipher and the counter mode, Cipher/Keys the rotation of keys, PBKDF2 and the comparison.
--     They are computed here, and are no parameters.
--
-- How the model corresponds to the code. A record stands for a struct and a data type for an enum. A
-- function that changes an object returns the new one. Words of 16, 32 and 64 bits are natural numbers,
-- and the wrap-around is written out. The clock, and whether `malloc`, `sendto` or a mutex call succeeds,
-- are arguments, as are the random bytes that are drawn and the functions of OpenSSL. The host is
-- little-endian where a struct or a word is copied as it lies in memory. A pointer to a connection or a
-- session is its position in the list that holds them. A call holds its lock while it works, so calls are
-- atomic.
--
-- Fuel. The walk along a chain of the pool has one more than the connections there are, and meets no end
-- of the fuel in a well-formed pool; the doubling in `icbrt` has 32 rounds, after which a guess leaves
-- 32 bits. The scan of the attributes of a STUN message has one round more than the message has bytes,
-- and never needs more; the doubling in `rc_ringbuf_init` of include/ringbuf.h has 65 rounds, which a
-- size up to 2 ^ 63 does not use up, and above that the code does not end; the counter mode has a round
-- for each byte, where a round takes up to 16. The other loops are recursion on a list or on the count
-- that bounds them in the code.
--
-- Faults. A lock beyond the array of locks, a slot beyond the timer wheel, a packet that overruns the
-- relay's buffer, a token that overruns the buffer of a handshake request, a read beyond a STUN message, a
-- handshake context of the other end's kind, an overflow of `int64_t` in the cubic and a window of 0 are
-- results of the model's own.
--
-- Not modelled: sockets and epoll, the cancelling of timers, `rc_p2p_destroy` and the other functions
-- that only free, the tokens of include/crypto.h, the signaling, relay, authentication and billing
-- services with their HTTP and Redis plumbing, and logging. The order in which threads interleave inside
-- one call is not modelled either; the atomic operations are plain ones.
pub mod Prelude
pub mod Proto
pub mod Ring
pub mod Retransmit
pub mod Conn
pub mod Relay
pub mod Congestion
pub mod Timers
pub mod Crypto
pub mod Handshake
pub mod P2p
pub mod Packet
pub mod Spsc
pub mod Cipher
