-- ===== src/Service/Vpc.antt =====
-- internal/service/scaleway/vpc/vpc.go: the Private Network of a cluster.
pub mod Laws
pub mod Safe
pub mod Live
use cluster_api_provider_sca.Prelude.{
  String, Bool, true, false, Option, none, some, List, [], ◌∷◌, if◌then◌else◌,
}
use cluster_api_provider_sca.Result.{Result, ok, err, panicked, other, deref, wrap}
use cluster_api_provider_sca.Sdk.{Sdk}
use cluster_api_provider_sca.Cloud.{network_api}
use cluster_api_provider_sca.Cloud.Network.{
  PrivateNetwork, create_private_network, delete_private_network,
}
use cluster_api_provider_sca.Prog.{Prog, Io, ret, bind, ask, pure, lift, wrapping, or_nil, ◌>>=◌}
use cluster_api_provider_sca.Client.Network.{find_private_network_by_name}
use cluster_api_provider_sca.Api.Cluster.{ScalewayCluster, PrivateNetworkSpec}
use cluster_api_provider_sca.Scope.Cluster.{
  Scope, region, name, private_network_of, should_manage_private_network,
  set_status_private_network_id,
}

abbrev subnets_of : Sdk → Option String → Result (List String)
subnets_of sdk none = ok []
subnets_of sdk (some subnet) = elim (sdk.parse_cidr subnet) [
  | ok net ↦ ok (net ∷ [])
  | err e ↦ err (wrap "failed to parse PrivateNetwork subnet" e)
  | panicked ↦ panicked
]

module _ (sdk : Sdk) (s : Scope) where
  unfoldable pub create_pn : Io PrivateNetwork
  create_pn = do
    spec ← lift (deref (private_network_of s.cluster))
    subnets ← lift (subnets_of sdk spec.subnet)
    ask (network_api (create_private_network (region s.cluster) (name s.cluster) subnets))

  abbrev create_if_nil : Option PrivateNetwork → Io PrivateNetwork
  create_if_nil none = create_pn
  create_if_nil (some pn) = pure pn

  abbrev check_dhcp : PrivateNetwork → Result PrivateNetwork
  check_dhcp pn =
      if pn.dhcp_enabled
      then ok pn
      else err (other "DHCP is not enabled in the specified Private Network")

  -- `getOrCreatePN`
  unfoldable pub get_or_create_pn : Io PrivateNetwork
  unfolding create_pn find_private_network_by_name
  get_or_create_pn = do
    found ← or_nil (find_private_network_by_name s.client (region s.cluster) (name s.cluster))
    pn ← create_if_nil found
    lift (check_dhcp pn)

  abbrev pub store_id : Result PrivateNetwork → Result (Unit {0}) × ScalewayCluster
  store_id (ok pn) = (ok tt, set_status_private_network_id pn.id s.cluster)
  store_id (err e) = (err (wrap "failed to get or create Private Network" e), s.cluster)
  store_id panicked = (panicked, s.cluster)

  -- `Reconcile`, with the object as it leaves it.
  unfoldable pub reconcile : Prog (Result (Unit {0}) × ScalewayCluster)
  reconcile =
      if should_manage_private_network s.cluster
      then bind get_or_create_pn (λ r. ret (store_id r))
      else ret (ok tt, s.cluster)

  abbrev delete_if_found : Option PrivateNetwork → Io (Unit {0})
  delete_if_found none = pure tt
  delete_if_found (some pn) = ask (network_api (delete_private_network (region s.cluster) pn.id))

  -- `Delete`
  unfoldable pub delete : Io (Unit {0})
  unfolding find_private_network_by_name
  delete =
      if should_manage_private_network s.cluster
      then (do
        found ← or_nil (find_private_network_by_name s.client (region s.cluster) (name s.cluster))
        delete_if_found found)
      else pure tt
