-- ===== src/Service/Vpc/Laws.antt =====
-- What the Private Network service asks of the VPC API, and what it leaves.
use cluster_api_provider_sca.Prelude.{
  ◌≡◌, refl, sym, ap, ◌∙◌, String, true, false, Option, none, some, List, [], find_first, ◌==◌,
  arith, ◌∷◌, if◌then◌else◌, inl, inr, Bool-cases,
}
use cluster_api_provider_sca.Result.{Result, ok, err, panicked}
use cluster_api_provider_sca.Sdk.{Sdk}
use cluster_api_provider_sca.Cloud.{Request, network_api}
use cluster_api_provider_sca.Cloud.Network.{
  PrivateNetwork, list_private_networks, create_private_network, delete_private_network,
}
use cluster_api_provider_sca.Prog.{Handler, ret, result, changes, final}
use cluster_api_provider_sca.Prog.Laws.{result-bind, final-bind}
use cluster_api_provider_sca.Scope.Cluster.{
  Scope, region, name, should_manage_private_network, set_status_private_network_id,
}
use cluster_api_provider_sca.Api.Cluster.{ScalewayCluster}
use cluster_api_provider_sca.Service.Vpc.{store_id, create_pn, get_or_create_pn, reconcile, delete}

-- The listing that the service makes for a cluster.
abbrev pub listing : Scope → Request
listing c =
    network_api (list_private_networks (region c.cluster) (name c.cluster) c.client.project_id)

-- The network of the cluster's name that an answer to the listing shows.
abbrev pub seen : Scope → Result (List PrivateNetwork) → Option PrivateNetwork
seen c (ok pns) = find_first (λ n. n.name == name c.cluster) pns
seen c _ = none

-- Listing changes nothing, and a network that was created is the first listed under its name.
pub record IsLawful {S : Type 0} (h : Handler S) (c : Scope) : Type 0 where
  pub list_keeps : (s : S) → (h (listing c) s).1 ≡ s
  pub create_listed :
      (subnets : List String) (s : S) (pn : PrivateNetwork)
      → (h (network_api (create_private_network (region c.cluster) (name c.cluster) subnets)) s).0
        ≡ ok pn
      → seen c
          (h
            (listing c)
            (h
              (network_api (create_private_network (region c.cluster) (name c.cluster) subnets))
              s).1).0
        ≡ some pn

module _ {S : Type 0} (h : Handler S) (sdk : Sdk) (c : Scope) (s : S) where
  create_pn-listed :
      {pn : PrivateNetwork}
      → IsLawful h c
      → result h (create_pn sdk c) s ≡ ok pn
      → seen c (h (listing c) (final h (create_pn sdk c) s)).0 ≡ some pn
  unfolding create_pn
  create_pn-listed law done = grind (arith, law.create_listed)

  get_or_create_pn-listed :
      {pn : PrivateNetwork}
      → IsLawful h c
      → result h (get_or_create_pn sdk c) s ≡ ok pn
      → (seen c (h (listing c) (final h (get_or_create_pn sdk c) s)).0 ≡ some pn)
        × (pn.dhcp_enabled ≡ true)
  unfolding get_or_create_pn
  get_or_create_pn-listed law done = grind (arith, law.create_listed, law.list_keeps)

  -- Where a network of the cluster's name is listed with DHCP on, it is used as it is.
  reconcile-seen :
      {pn : PrivateNetwork}
      → should_manage_private_network c.cluster ≡ true
      → seen c (h (listing c) s).0 ≡ some pn
      → pn.dhcp_enabled ≡ true
      → (changes h (reconcile sdk c) s ≡ [])
        × (result h (reconcile sdk c) s ≡ (ok tt, set_status_private_network_id pn.id c.cluster))
  unfolding reconcile get_or_create_pn
  reconcile-seen managed found dhcp = ground arith

  pub reconcile-managed :
      should_manage_private_network c.cluster ≡ true
      → (result h (reconcile sdk c) s ≡ store_id sdk c (result h (get_or_create_pn sdk c) s))
        × (final h (reconcile sdk c) s ≡ final h (get_or_create_pn sdk c) s)
  unfolding reconcile
  reconcile-managed managed = rw managed (
    result-bind h (get_or_create_pn sdk c) (λ r. ret (store_id sdk c r)) s,
    final-bind h (get_or_create_pn sdk c) (λ r. ret (store_id sdk c r)) s,
  )

  pub reconcile-unmanaged :
      should_manage_private_network c.cluster ≡ false
      → (result h (reconcile sdk c) s ≡ (ok tt, c.cluster))
        × (final h (reconcile sdk c) s ≡ s)
        × (changes h (reconcile sdk c) s ≡ [])
  unfolding reconcile
  reconcile-unmanaged unmanaged = rw unmanaged (refl, refl, refl)

set_status_twice :
    (id : String) (c : ScalewayCluster)
    → set_status_private_network_id id (set_status_private_network_id id c)
      ≡ set_status_private_network_id id c
unfolding set_status_private_network_id
set_status_twice id c = ground arith

should_manage-set_status :
    (id : String) (c : ScalewayCluster)
    → should_manage_private_network (set_status_private_network_id id c)
      ≡ should_manage_private_network c
unfolding should_manage_private_network set_status_private_network_id
should_manage-set_status id c = refl

module _ {S : Type 0} (h : Handler S) (sdk : Sdk) (c : Scope) where
  -- The object with the identifier of the network stored, and a state where the network is listed.
  stored_settled :
      (pn : PrivateNetwork) (t : S)
      → let c' = set_status_private_network_id pn.id c.cluster in
        should_manage_private_network c.cluster ≡ true
        → seen c (h (listing c) t).0 ≡ some pn
        → pn.dhcp_enabled ≡ true
        → (changes h (reconcile sdk (record c { cluster = c' })) t ≡ [])
          × (result h (reconcile sdk (record c { cluster = c' })) t ≡ (ok tt, c'))
  unfolding name region set_status_private_network_id
  stored_settled pn t managed found dhcp =
      let c' = set_status_private_network_id pn.id c.cluster in
      let (quiet, same) =
        reconcile-seen h sdk (record c { cluster = c' }) t
          (should_manage-set_status pn.id c.cluster ∙ managed) found dhcp in
      (quiet, same ∙ ap (λ (x : ScalewayCluster). (ok tt, x)) (set_status_twice pn.id c.cluster))

  converges_from :
      (r : Result PrivateNetwork) (t : S) {c' : ScalewayCluster}
      → should_manage_private_network c.cluster ≡ true
      → ((pn : PrivateNetwork)
          → r ≡ ok pn
          → (seen c (h (listing c) t).0 ≡ some pn) × (pn.dhcp_enabled ≡ true))
      → store_id sdk c r ≡ (ok tt, c')
      → (changes h (reconcile sdk (record c { cluster = c' })) t ≡ [])
        × (result h (reconcile sdk (record c { cluster = c' })) t ≡ (ok tt, c'))
  converges_from (ok pn) t {c'} managed listed done =
      let e : c' ≡ set_status_private_network_id pn.id c.cluster = cc in
      rw e (stored_settled pn t managed (listed pn refl).0 (listed pn refl).1)
  converges_from (err e) t managed listed done = cc
  converges_from panicked t managed listed done = cc

  -- Over a VPC API that lists what was created, a reconciliation that succeeded leaves nothing to
  -- do: the next one, on the object that it left, changes nothing and has the same outcome.
  pub reconcile_converges :
      (s : S) {c' : ScalewayCluster}
      → IsLawful h c
      → result h (reconcile sdk c) s ≡ (ok tt, c')
      → let t = final h (reconcile sdk c) s in
        (changes h (reconcile sdk (record c { cluster = c' })) t ≡ [])
        × (result h (reconcile sdk (record c { cluster = c' })) t ≡ (ok tt, c'))
  reconcile_converges s {c'} law done =
      elim (Bool-cases (should_manage_private_network c.cluster)) [
        | inl managed ↦ rw (reconcile-managed h sdk c s managed).1 (
            converges_from (result h (get_or_create_pn sdk c) s) _ managed
              (λ pn e. get_or_create_pn-listed h sdk c s law e)
              (sym (reconcile-managed h sdk c s managed).0 ∙ done))
        | inr unmanaged ↦
            let (same, still, quiet) = reconcile-unmanaged h sdk c s unmanaged in
            let e : c' ≡ c.cluster =
              ap (λ (x : Result (Unit {0}) × ScalewayCluster). x.1) (sym done ∙ same) in
            rw (still, e) (quiet, same)
      ]

  -- A deletion asks for no change but the deletion of the network that is listed under the name of
  -- the cluster, and for none at all where the network is not managed or is not listed.
  pub changes-delete_network :
      (s : S)
      → changes h (delete sdk c) s ≡ (
          if should_manage_private_network c.cluster
          then (elim (seen c (h (listing c) s).0) as (λ _. List Request) [
            | none ↦ []
            | some pn ↦ network_api (delete_private_network (region c.cluster) pn.id) ∷ []
          ])
          else [])
  unfolding delete
  changes-delete_network s = ground arith
