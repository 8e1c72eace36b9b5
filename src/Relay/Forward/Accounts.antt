-- ===== src/Relay/Forward/Accounts.antt =====
-- What `rc_relay_forward` of src/core/rc_relay.c does to the routes and the totals of the server.
use robov.Prelude.{
  ℕ, ◌+◌, ◌≡◌, refl, Bool, true, false, Option, none, some, List, if◌then◌else◌, ltb, length,
  get_elem?, u32, add64, Bool-cases, inl, inr,
}
use robov.Proto.{Header, header_size, max_payload, hdr_unpack, Unpacked, unpack_ok, unpack_bad}
use robov.Relay.{Session, Route, Server, bw_check, route_lookup}
use robov.Relay.Forward.{
  Endian, Sent, Forwarded, relayed, forward_on, forward_session, forward_route, forward_header,
  forward,
}

-- The routes, the number of sessions and the bytes dropped are kept, and the bytes forwarded follow the result.
abbrev Accounts : Server → List ℕ → Forwarded × Option Sent × Server → Type 0
Accounts srv pkt (r, sent, srv') =
    (srv'.routes ≡ srv.routes)
    × (srv'.session_count ≡ srv.session_count)
    × (srv'.total_dropped ≡ srv.total_dropped)
    × (srv'.total_forwarded
        ≡ (elim r [ relayed ↦ add64 srv.total_forwarded (length pkt) | _ ↦ srv.total_forwarded ]))

forward_on-Accounts :
    (e : Endian) (sendto : Bool) (now : ℕ) (srv : Server) (pkt : List ℕ) (hdr : Header)
    (route : Route) (sess : Session)
    → Accounts srv pkt (forward_on e sendto now srv pkt hdr route sess)
unfolding forward_on
forward_on-Accounts e true now srv pkt hdr route sess =
    elim (Bool-cases (bw_check now sess (u32 (length pkt))).0) [
      | inr over ↦ rw over (refl, refl, refl, refl)
      | inl within ↦ elim (Bool-cases (ltb (header_size + max_payload) (length pkt))) [
        | inl long ↦ rw (within, long) (refl, refl, refl, refl)
        | inr short ↦ rw (within, short) (refl, refl, refl, refl)
      ]
    ]
forward_on-Accounts e false now srv pkt hdr route sess =
    elim (Bool-cases (bw_check now sess (u32 (length pkt))).0) [
      | inr over ↦ rw over (refl, refl, refl, refl)
      | inl within ↦ elim (Bool-cases (ltb (header_size + max_payload) (length pkt))) [
        | inl long ↦ rw (within, long) (refl, refl, refl, refl)
        | inr short ↦ rw (within, short) (refl, refl, refl, refl)
      ]
    ]

either-Accounts :
    (srv : Server) (pkt : List ℕ) (b : Bool) (x y : Forwarded × Option Sent × Server)
    → Accounts srv pkt x
    → Accounts srv pkt y
    → Accounts srv pkt (if b then x else y)
either-Accounts srv pkt true x y p q = p
either-Accounts srv pkt false x y p q = q

forward_session-Accounts :
    (e : Endian) (sendto : Bool) (now : ℕ) (srv : Server) (pkt : List ℕ) (hdr : Header)
    (route : Route) (o : Option Session)
    → Accounts srv pkt (forward_session e sendto now srv pkt hdr route o)
unfolding forward_session
forward_session-Accounts e sendto now srv pkt hdr route none = (refl, refl, refl, refl)
forward_session-Accounts e sendto now srv pkt hdr route (some sess) =
    either-Accounts srv pkt sess.active _ _
      (forward_on-Accounts e sendto now srv pkt hdr route sess) (refl, refl, refl, refl)

forward_header-Accounts :
    (e : Endian) (sendto : Bool) (now : ℕ) (srv : Server) (pkt : List ℕ) (hdr : Header)
    (u : Unpacked) (o : Option Route)
    → route_lookup srv hdr.conn_id ≡ o
    → Accounts srv pkt (forward_header e sendto now srv pkt hdr u)
unfolding forward_header forward_route
forward_header-Accounts e sendto now srv pkt hdr unpack_bad o q = (refl, refl, refl, refl)
forward_header-Accounts e sendto now srv pkt hdr unpack_ok none q = rw q (refl, refl, refl, refl)
forward_header-Accounts e sendto now srv pkt hdr unpack_ok (some route) q =
    rw q (
      forward_session-Accounts e sendto now srv pkt hdr route
        (get_elem? srv.sessions route.session))

-- Whatever comes of a packet, the routes, the number of sessions and `total_dropped` are as before; `total_forwarded` has
-- grown by the packet's length, modulo 2^64, if the packet was relayed, and is otherwise as before.
pub forward_accounts :
    (e : Endian) (sendto : Bool) (now : ℕ) (srv : Server) (pkt : List ℕ)
    → let (r, sent, srv') = forward e sendto now srv pkt in
      (srv'.routes ≡ srv.routes)
      × (srv'.session_count ≡ srv.session_count)
      × (srv'.total_dropped ≡ srv.total_dropped)
      × (srv'.total_forwarded
          ≡ (elim r [ relayed ↦ add64 srv.total_forwarded (length pkt) | _ ↦ srv.total_forwarded ]))
unfolding forward
forward_accounts e sendto now srv pkt = elim (Bool-cases (ltb (length pkt) header_size)) [
  | inl short ↦ rw short (refl, refl, refl, refl)
  | inr long ↦
      rw long
        (forward_header-Accounts e sendto now srv pkt (hdr_unpack pkt).1 (hdr_unpack pkt).0 _ refl)
]
