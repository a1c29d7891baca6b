-- ===== src/Service/Vpc/Live.antt =====
-- When `Reconcile` of internal/service/scaleway/vpc/vpc.go succeeds.
use cluster_api_provider_sca.Prelude.{
  ◌≡◌, refl, Bool-cases, inl, inr, true, false, String, Option, none, some, List, arith, All, ◌==◌,
}
use cluster_api_provider_sca.Result.{Result, ok, err, panicked}
use cluster_api_provider_sca.Sdk.{Sdk}
use cluster_api_provider_sca.Cloud.{network_api}
use cluster_api_provider_sca.Cloud.Network.{
  PrivateNetwork, list_private_networks, create_private_network,
}
use cluster_api_provider_sca.Prog.{Handler, result, ask, lift, or_nil, ◌>>=◌}
use cluster_api_provider_sca.Prog.Runs.{Runs, Runs-bind, Meets, NoError, Any}
use cluster_api_provider_sca.Api.Cluster.{ScalewayCluster, PrivateNetworkSpec}
use cluster_api_provider_sca.Scope.Cluster.{
  Scope, region, name, should_manage_private_network, has_private_network, private_network_of,
  private_network_id, set_status_private_network_id,
}
use cluster_api_provider_sca.Client.{first_item}
use cluster_api_provider_sca.Client.Found.{IfAny, search_found}
use cluster_api_provider_sca.Client.Network.{find_private_network_by_name}
use cluster_api_provider_sca.Service.Vpc.{
  check_dhcp, store_id, create_pn, create_if_nil, get_or_create_pn, reconcile,
}
use cluster_api_provider_sca.Service.Vpc.Laws.{reconcile-managed, reconcile-unmanaged}

abbrev pub HasDhcp : PrivateNetwork → Type 0
HasDhcp pn = pn.dhcp_enabled ≡ true

-- The VPC API answers, with networks that have DHCP.
pub record IsServing {S : Type 0} (h : Handler S) : Type 0 where
  pub listed :
      (region name project : String) (s : S)
      → Meets NoError
          (All HasDhcp)
          (h (network_api (list_private_networks region name project)) s).0
  pub created :
      (region name : String) (subnets : List String) (s : S)
      → Meets NoError HasDhcp (h (network_api (create_private_network region name subnets)) s).0

-- The status has the identifier of the Private Network, where there is one.
abbrev pub IsIdentified : ScalewayCluster → Type 0
IsIdentified c = has_private_network c ≡ true → Meets NoError Any (private_network_id c)

-- The subnet that the cluster wants, if it wants one, is one.
abbrev pub HasSubnet : Sdk → ScalewayCluster → Type 0
HasSubnet sdk c =
    (n : PrivateNetworkSpec) (subnet : String)
    → private_network_of c ≡ some n
    → n.subnet ≡ some subnet
    → Meets NoError Any (sdk.parse_cidr subnet)

module _ {S : Type 0} (h : Handler S) (serving : IsServing h) (sdk : Sdk) (c : Scope) where
  made-Runs :
      should_manage_private_network c.cluster ≡ true
      → HasSubnet sdk c.cluster
      → Runs h NoError HasDhcp (create_pn sdk c)
  unfolding create_pn should_manage_private_network has_private_network
  made-Runs managed subnet s =
      let created = serving.created (region c.cluster) (name c.cluster) in
      grind (arith, created, subnet)

  checked-Runs :
      (pn : PrivateNetwork) → HasDhcp pn → Runs h NoError HasDhcp (lift (check_dhcp sdk c pn))
  checked-Runs pn dhcp s = rw dhcp refl

  chosen-Runs :
      should_manage_private_network c.cluster ≡ true
      → HasSubnet sdk c.cluster
      → (found : Option PrivateNetwork) → IfAny HasDhcp found
      → Runs h NoError HasDhcp (create_if_nil sdk c found >>= λ pn. lift (check_dhcp sdk c pn))
  chosen-Runs managed subnet none has =
      Runs-bind h NoError HasDhcp HasDhcp (create_pn sdk c) (λ pn. lift (check_dhcp sdk c pn))
        (made-Runs managed subnet) checked-Runs
  chosen-Runs managed subnet (some pn) has = checked-Runs pn has

  get-Runs :
      should_manage_private_network c.cluster ≡ true
      → HasSubnet sdk c.cluster
      → Runs h NoError HasDhcp (get_or_create_pn sdk c)
  unfolding get_or_create_pn find_private_network_by_name
  get-Runs managed subnet =
      let listing = ask (
        network_api
          (list_private_networks (region c.cluster) (name c.cluster) c.client.project_id)) in
      let named = λ (pn : PrivateNetwork). pn.name == name c.cluster in
      Runs-bind h NoError (IfAny HasDhcp) HasDhcp
        (or_nil (listing >>= λ pns. lift (first_item named pns)))
        (λ found. create_if_nil sdk c found >>= λ pn. lift (check_dhcp sdk c pn))
        (search_found h HasDhcp listing named (serving.listed _ _ _)) (chosen-Runs managed subnet)

  stored-IsIdentified :
      (r : Result PrivateNetwork)
      → Meets NoError HasDhcp r
      → Meets NoError (λ _. IsIdentified (store_id sdk c r).1) (store_id sdk c r).0
  unfolding set_status_private_network_id private_network_id has_private_network
  stored-IsIdentified (ok pn) fine = λ has. ground arith
  stored-IsIdentified (err e) fine = fine
  stored-IsIdentified panicked fine = fine

  -- A reconciliation succeeds, and the identifier of the network is stored then.
  pub vpc-Succeeds :
      HasSubnet sdk c.cluster
      → (should_manage_private_network c.cluster ≡ false → IsIdentified c.cluster)
      → (s : S)
      → Meets NoError
          (λ _. IsIdentified (result h (reconcile sdk c) s).1)
          (result h (reconcile sdk c) s).0
  vpc-Succeeds subnet given s = elim (Bool-cases (should_manage_private_network c.cluster)) [
    | inl managed ↦
        rw (reconcile-managed h sdk c s managed).0
          (stored-IsIdentified (result h (get_or_create_pn sdk c) s) (get-Runs managed subnet s))
    | inr unmanaged ↦ rw (reconcile-unmanaged h sdk c s unmanaged).0 (given unmanaged)
  ]
