-- ===== src/Relay/Routes.antt =====
-- The routing table of src/core/rc_relay.c as a map.
use robov.Prelude.{ℕ, ◌≡◌, ap, Bool, true, none, some, List, [], ◌∷◌, arith, if◌then◌else◌, ◌==◌}
use robov.Relay.{
  Route, Server, bucket_of, route_add, chain_find, route_lookup, chain_remove, route_remove,
}

chain_find-remove :
    (rs : List Route) (conn_id k : ℕ)
    → chain_find (chain_remove rs conn_id) k ≡ (if conn_id == k then none else chain_find rs k)
unfolding chain_find chain_remove
chain_find-remove [] conn_id k = ground arith
chain_find-remove (r ∷ rs) conn_id k = ground (arith, chain_find-remove rs conn_id k)

pub lookup-add :
    (srv : Server) (conn_id session k : ℕ) (ingress : Bool)
    → route_lookup (route_add true srv conn_id session ingress) k ≡ (
        if conn_id == k
        then some (record { conn_id = conn_id; session = session; is_ingress = ingress })
        else route_lookup srv k)
unfolding route_lookup route_add chain_find
lookup-add srv conn_id session k ingress =
    let same : (conn_id == k) ≡ true → (bucket_of conn_id == bucket_of k) ≡ true =
      λ e. ground (arith, ap bucket_of {x = conn_id} {y = k} (ground (arith, e))) in
    let chain : (bucket_of conn_id == bucket_of k) ≡ true
        → srv.routes (bucket_of conn_id) ≡ srv.routes (bucket_of k) =
      λ e. ap srv.routes (ground (arith, e)) in
    ground (arith, same, chain)

pub lookup-remove :
    (srv : Server) (conn_id k : ℕ)
    → route_lookup (route_remove srv conn_id) k
      ≡ (if conn_id == k then none else route_lookup srv k)
unfolding route_lookup route_remove
lookup-remove srv conn_id k =
    let same : (conn_id == k) ≡ true → (bucket_of conn_id == bucket_of k) ≡ true =
      λ e. ground (arith, ap bucket_of {x = conn_id} {y = k} (ground (arith, e))) in
    let chain : (bucket_of conn_id == bucket_of k) ≡ true
        → srv.routes (bucket_of conn_id) ≡ srv.routes (bucket_of k) =
      λ e. ap srv.routes (ground (arith, e)) in
    ground (arith, same, chain, chain_find-remove (srv.routes (bucket_of k)) conn_id k)
