-- ===== src/Service/Balancer/Reconcile.antt =====
-- `Reconcile` and `Delete` of the Load Balancer service.
pub mod Laws
pub mod Safe
pub mod Live
pub mod Unstored
use cluster_api_provider_sca.Prelude.{
  ℕ, String, Bool, true, false, not, Option, none, some, List, [], ◌∷◌, is_some, if◌then◌else◌,
}
use cluster_api_provider_sca.Result.{
  Result, ok, err, panicked, other, wrap, wrapped, load_balancer_not_ready,
}
use cluster_api_provider_sca.Sdk.{Sdk}
use cluster_api_provider_sca.Cloud.{balancer_api}
use cluster_api_provider_sca.Cloud.Balancer.{
  LoadBalancer, BalancerStatus, ready, in_status, Backend, Frontend, delete_balancer,
}
use cluster_api_provider_sca.Prog.{
  Prog, Io, ret, bind, ask, pure, lift, wrapping, or_nil, ◌>>=◌, ◌>>◌,
}
use cluster_api_provider_sca.Client.Balancer.{find_load_balancer_by_name}
use cluster_api_provider_sca.Api.Cluster.{ScalewayCluster, Endpoint}
use cluster_api_provider_sca.Scope.Cluster.{
  Scope, name, load_balancer_zone, has_private_network, private_network_id,
}
use cluster_api_provider_sca.Service.Balancer.Acls.{ensure_acls}
use cluster_api_provider_sca.Service.Balancer.Members.{
  given_ip, get_or_create_lb, ensure_private_network, ensure_backend, ensure_frontend,
}

abbrev check_ready : BalancerStatus → Result (Unit {0})
check_ready ready = ok tt
check_ready (in_status status) = err load_balancer_not_ready

-- The first IPv4 address among those of the Load Balancer, in the order listed.
unfoldable pub first_ipv4 : Sdk → List String → Result String
first_ipv4 sdk [] = err (other "loadbalancer has no IPs")
first_ipv4 sdk (ip ∷ ips) =
    let rest = first_ipv4 sdk ips in
    elim (sdk.parse_addr_is4 ip) [
      | ok true ↦ ok ip
      | ok false ↦ rest
      | err e ↦ err (wrap "failed to parse loadbalancer IP" e)
      | panicked ↦ panicked
    ]

module _ (sdk : Sdk) (s : Scope) where
  network_if_any : Result (Option String)
  network_if_any =
      if has_private_network s.cluster
      then (elim (private_network_id s.cluster) [
        | ok id ↦ ok (some id)
        | err e ↦ err e
        | panicked ↦ panicked
      ])
      else ok none

  -- The end of `Reconcile`: the endpoint of a frontend.
  endpoint_of : LoadBalancer → Frontend → Io Endpoint
  endpoint_of balancer frontend = do
    host ← lift (first_ipv4 sdk balancer.ips)
    pure (record { host = host; port = frontend.inbound_port })

  ensure_acls_of : LoadBalancer → Option String → Frontend → Io Endpoint
  ensure_acls_of balancer pn_id frontend = do
    wrapping (ensure_acls sdk s frontend pn_id) (wrapped "failed to ensure LoadBalancer ACLs")
    endpoint_of balancer frontend

  ensure_frontend_of : LoadBalancer → Option String → Backend → Io Endpoint
  ensure_frontend_of balancer pn_id backend = do
    frontend ←
        wrapping (ensure_frontend balancer backend)
          (wrapped "failed to ensure LoadBalancer frontend")
    ensure_acls_of balancer pn_id frontend

  ensure_backend_of : LoadBalancer → Option String → Io Endpoint
  ensure_backend_of balancer pn_id = do
    backend ← wrapping (ensure_backend balancer) (wrapped "failed to ensure LoadBalancer backend")
    ensure_frontend_of balancer pn_id backend

  ensure_members : LoadBalancer → Option String → Io Endpoint
  ensure_members balancer pn_id = do
    ensure_private_network balancer pn_id
    ensure_backend_of balancer pn_id

  -- `Reconcile` from the Load Balancer on, but for the write of the endpoint.
  unfoldable pub ensure_parts : LoadBalancer → Io Endpoint
  unfolding network_if_any ensure_members ensure_backend_of ensure_frontend_of ensure_acls_of
      endpoint_of
  ensure_parts balancer = do
    lift (check_ready balancer.status)
    pn_id ← lift network_if_any
    ensure_members balancer pn_id

  -- All of `Reconcile` but the write of the endpoint.
  unfoldable pub ensure_endpoint : Io Endpoint
  ensure_endpoint = do
    balancer ← get_or_create_lb s (load_balancer_zone s.cluster)
    ensure_parts balancer

  abbrev pub store_endpoint : Result Endpoint → Result (Unit {0}) × ScalewayCluster
  store_endpoint (ok e) =
      (ok tt, record s.cluster { spec = record s.cluster.spec { control_plane_endpoint = e } })
  store_endpoint (err e) = (err e, s.cluster)
  store_endpoint panicked = (panicked, s.cluster)

  -- `Reconcile`, with the object as it leaves it.
  unfoldable pub reconcile : Prog (Result (Unit {0}) × ScalewayCluster)
  reconcile = bind ensure_endpoint (λ r. ret (store_endpoint r))

-- `Delete`: an address that the user gave is not released.
delete_lb_if_found : Scope → Option LoadBalancer → Io (Unit {0})
delete_lb_if_found s none = pure tt
delete_lb_if_found s (some balancer) =
    wrapping
      (ask (balancer_api (delete_balancer balancer.zone balancer.id (not (is_some (given_ip s))))))
      (wrapped "failed to delete load balancer")

unfoldable pub delete : Scope → Io (Unit {0})
unfolding delete_lb_if_found
delete s = do
  found ← or_nil (find_load_balancer_by_name (load_balancer_zone s.cluster) (name s.cluster))
  delete_lb_if_found s found
