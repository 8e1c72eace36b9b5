-- ===== src/Conn.antt =====
-- The connection object of src/core/rc_conn.c and include/rc_conn.h: its state machine, closing and
-- reference count. The pool of connections is in Conn/Pool.antt.
pub mod Machine
pub mod Pool
mod Examples
use robov.Prelude.{
  ℕ, ◌+◌, ◌-◌, ◌^◌, Bool, true, false, ◌||◌, Option, none, some, List, [], ◌∷◌, ◌++◌, if◌then◌else◌,
  ◌==◌, add32, sub32,
}
use robov.Ring
use robov.Ring.{Ring}

-- `rc_conn_state_t`
pub data ConnState : Type 0 where
  closed connecting handshaking established closing : ConnState

-- What `user_data` points to: nothing, the next connection of a pool chain, or a handshake context.
-- The three are told apart here only; in the code it is one `void *`.
pub data UserData : Type 0 where
  null : UserData
  chain : ℕ → UserData
  context : UserData

-- `struct timeval`
pub record TimeVal : Type 0 where
  pub tv_sec : ℕ
  pub tv_usec : ℕ

-- The part of `struct rc_conn` that the functions here read or write. A closed `fd` (-1) is `none`, and
-- `on_state` says whether there is a callback.
pub record Conn : Type 0 where
  pub conn_id : ℕ
  pub fd : Option ℕ
  pub state : ConnState
  pub refcnt : ℕ
  pub send_buf : Ring
  pub recv_buf : Ring
  pub last_recv : TimeVal
  pub rto_ms : ℕ
  pub user_data : UserData
  pub on_state : Bool

-- A call of the callback `on_state`, with the old and the new state.
abbrev pub Event : Type 0
Event = ConnState × ConnState

-- The result 0 or -1 of a call.
pub data Status : Type 0 where
  ok failed : Status

unfoldable pub is_state : ConnState → ConnState → Bool
is_state closed closed = true
is_state connecting connecting = true
is_state handshaking handshaking = true
is_state established established = true
is_state closing closing = true
is_state _ _ = false

-- The `switch` of `rc_conn_set_state`.
unfoldable pub valid_transition : ConnState → ConnState → Bool
unfolding is_state
valid_transition closed new = is_state new connecting
valid_transition connecting new = is_state new handshaking || is_state new closed
valid_transition handshaking new = is_state new established || is_state new closed
valid_transition established new = is_state new closing || is_state new closed
valid_transition closing new = is_state new closed

-- `rc_conn_set_state`, with the call of the callback that it makes, if there is one.
unfoldable pub set_state : Conn → ConnState → Status × List Event × Conn
unfolding valid_transition
set_state c new =
    if valid_transition c.state new
    then (ok, if c.on_state then (c.state, new) ∷ [] else [], record c { state = new })
    else (failed, [], c)

-- `rc_conn_close`: the results of the two transitions are not looked at.
pub close : Conn → List Event × Conn
unfolding set_state
close c0 =
    let (r1, e1, c1) = set_state c0 closing in
    let (r2, e2, c2) = set_state c1 closed in (e1 ++ e2, record c2 { fd = none })

-- `rc_conn_release`
pub release : Conn → Conn
release c =
    if c.refcnt == 1
    then record c {
      refcnt = 0;
      fd = none;
      send_buf = Ring.destroy c.send_buf;
      recv_buf = Ring.destroy c.recv_buf;
      state = closed;
    }
    else record c { refcnt = sub32 c.refcnt 1 }
