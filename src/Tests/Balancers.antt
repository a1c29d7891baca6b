-- ===== src/Tests/Balancers.antt =====
-- Runs of the service of the Load Balancer.
use cluster_api_provider_sca.Prelude.{◌≡◌, ◌⊎◌, refl, false, none, some, List, [], ◌∷◌, ◌++◌}
use cluster_api_provider_sca.Result.{ok}
use cluster_api_provider_sca.Cloud.{balancer_api, network_api}
use cluster_api_provider_sca.Cloud.Network.{list_gateways_by_network}
use cluster_api_provider_sca.Cloud.Balancer.{
  LoadBalancer, BalancerStatus, ready, Backend, Frontend, Acl, list_balancers,
  list_balancer_networks, list_backends, delete_backend, list_frontends, create_frontend, list_acls,
  delete_acl,
}
use cluster_api_provider_sca.Prog.{Handler, changes}
use cluster_api_provider_sca.Api.Cluster.{ScalewayCluster}
use cluster_api_provider_sca.Scope.Cluster.{
  Scope, name, region, zones, has_private_network, private_network_id, load_balancer_zone,
}
use cluster_api_provider_sca.Client.Balancer.{
  find_load_balancer_by_name, find_load_balancer_acl_by_name,
}
use cluster_api_provider_sca.Client.Network.{find_gateways_by_private_network_id}
use cluster_api_provider_sca.Service.Balancer.Acls.{
  ensure_acl, ensure_acls, allowed_ranges, deny_all, gateway_addresses,
}
use cluster_api_provider_sca.Service.Balancer.Acls.Laws.{written, changes-ensure_acl}
use cluster_api_provider_sca.Service.Balancer.Members.{
  get_or_create_lb, ensure_backend, ensure_frontend, ensure_private_network, prune_backends,
  prune_frontends,
}
use cluster_api_provider_sca.Service.Balancer.Members.Backends.{changes-ensure_backend}
use cluster_api_provider_sca.Service.Balancer.Members.Backends
use cluster_api_provider_sca.Service.Balancer.Members.Frontends.{changes-ensure_frontend}
use cluster_api_provider_sca.Service.Balancer.Members.Frontends
use cluster_api_provider_sca.Service.Balancer.Reconcile.{
  reconcile, first_ipv4, ensure_endpoint, ensure_parts,
}
use cluster_api_provider_sca.Service.Balancer.Reconcile.Laws.{IsFirstIpv4, reconcile_stores}
use cluster_api_provider_sca.Tests.Fixtures.{silent, libraries, scope, cluster}

abbrev balancer_in : BalancerStatus → LoadBalancer
balancer_in status = record {
  id = "lb";
  name = "caps-test";
  zone = "fr-par-1";
  status = status;
  ips = "fe80::1" ∷ "10.0.0.1" ∷ [];
}

abbrev backend : Backend
backend = record { id = "backend"; name = "control-plane"; pool = [] }

abbrev old_backend : Backend
old_backend = record { id = "old"; name = "old"; pool = [] }

abbrev acl : Acl
acl = record { id = "acl"; name = "allowed-ranges"; subnets = some ("10.0.0.0/8" ∷ []) }

abbrev frontend : Frontend
frontend = record { id = "frontend"; name = "control-plane"; inbound_port = 6443 }

-- An outside with a Load Balancer of the cluster, in some status.
abbrev api : BalancerStatus → Handler (Unit {0})
api status (balancer_api (list_balancers zone name)) s = (ok (balancer_in status ∷ []), s)
api status (balancer_api (list_balancer_networks zone balancer)) s = (ok ("pn" ∷ []), s)
api status (balancer_api (list_backends zone balancer name)) s =
    (ok (old_backend ∷ backend ∷ []), s)
api status (balancer_api (delete_backend zone b)) s = (ok tt, s)
api status (balancer_api (list_frontends zone balancer name)) s = (ok [], s)
api status (balancer_api (create_frontend request)) s = (ok frontend, s)
api status (balancer_api (list_acls zone f name)) s = (ok (acl ∷ []), s)
api status (network_api (list_gateways_by_network zones pn)) s = (ok [], s)
api status (balancer_api (delete_acl zone a)) s = (ok tt, s)
api status q s = (silent q, s)

-- A cluster that was not given the identifier of its Private Network.
abbrev unstored : Scope
unstored = record scope {
  cluster = record cluster { status = record cluster.status { network = none } };
}

abbrev stored : ScalewayCluster
stored = record cluster {
  spec = record cluster.spec { control_plane_endpoint = record { host = "10.0.0.1"; port = 6443 } };
}

reconcile_stores_example :
    IsFirstIpv4 libraries ("fe80::1" ∷ "10.0.0.1" ∷ []) "10.0.0.1"
    × (stored ≡ record cluster {
      spec = record cluster.spec { control_plane_endpoint = stored.spec.control_plane_endpoint };
    })
unfolding reconcile ensure_endpoint ensure_parts get_or_create_lb find_load_balancer_by_name name
    region zones load_balancer_zone has_private_network private_network_id ensure_private_network
    ensure_backend ensure_frontend ensure_acls ensure_acl allowed_ranges deny_all gateway_addresses
    find_gateways_by_private_network_id find_load_balancer_acl_by_name first_ipv4 prune_backends
    prune_frontends
reconcile_stores_example =
    reconcile_stores (api ready) libraries scope tt {balancer = balancer_in ready} {c' = stored}
      refl refl

changes-ensure_acl_example :
    changes
      (api ready)
      (ensure_acl scope "frontend" "allowed-ranges" ("10.0.0.0/8" ∷ []) false 1)
      tt
    ≡ written scope "frontend" "allowed-ranges" ("10.0.0.0/8" ∷ []) false 1 (some acl)
changes-ensure_acl_example =
    changes-ensure_acl (api ready) scope "frontend" "allowed-ranges" ("10.0.0.0/8" ∷ []) false 1 tt
      {acls = acl ∷ []} refl

changes-ensure_backend_example :
    let balancer = balancer_in ready in
    let bs = old_backend ∷ backend ∷ [] in
    (changes (api ready) (ensure_backend balancer) tt
      ≡ Backends.other_backends balancer bs
        ++ Backends.creation_if_none balancer (Backends.last_named bs none))
    × ((Backends.last_named bs none ≡ none) ⊎ (Backends.last_named bs none ≡ some backend))
unfolding ensure_backend prune_backends
changes-ensure_backend_example =
    changes-ensure_backend (api ready) (balancer_in ready) tt {bs = old_backend ∷ backend ∷ []}
      {backend = backend} refl refl

changes-ensure_frontend_example :
    let balancer = balancer_in ready in
    let none_yet : List Frontend = [] in
    (changes (api ready) (ensure_frontend balancer backend) tt
      ≡ Frontends.other_frontends balancer none_yet
        ++ Frontends.creation_if_none balancer backend (Frontends.last_named none_yet none))
    × ((Frontends.last_named none_yet none ≡ none)
        ⊎ (Frontends.last_named none_yet none ≡ some frontend))
unfolding ensure_frontend prune_frontends
changes-ensure_frontend_example =
    changes-ensure_frontend (api ready) (balancer_in ready) backend tt {bs = []}
      {frontend = frontend} refl refl
