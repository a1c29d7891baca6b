-- ===== src/Service/Vpc/Safe.antt =====
-- Panics of internal/service/scaleway/vpc/vpc.go, and what it stores.
use cluster_api_provider_sca.Prelude.{Bool-cases, inl, inr, ◌≡◌, ◌≢◌, arith, none, true, false}
use cluster_api_provider_sca.Sdk.{Sdk}
use cluster_api_provider_sca.Sdk.Plain.{IsPlain}
use cluster_api_provider_sca.Prog.{Handler, result}
use cluster_api_provider_sca.Prog.Runs.{Runs, Meets, AnyError, Any, IsCalm}
use cluster_api_provider_sca.Api.Cluster.{ScalewayCluster}
use cluster_api_provider_sca.Scope.Cluster.{
  Scope, should_manage_private_network, private_network_id, has_private_network,
  set_status_private_network_id,
}
use cluster_api_provider_sca.Service.Vpc.Laws.{reconcile-managed, reconcile-unmanaged}
use cluster_api_provider_sca.Cloud.Network.{PrivateNetwork}
use cluster_api_provider_sca.Result.{Result, ok, err, panicked}
use cluster_api_provider_sca.Service.Vpc.{store_id, get_or_create_pn, reconcile, delete}

-- Where there is a Private Network, the status has a place for its identifier.
abbrev pub IsStored : ScalewayCluster → Type 0
IsStored c = has_private_network c ≡ true → c.status.network ≢ none

-- The same, where the network is one that the user gave.
abbrev pub IsUsable : ScalewayCluster → Type 0
IsUsable c =
    has_private_network c ≡ true → should_manage_private_network c ≡ false → c.status.network ≢ none

pub stored_id : (c : ScalewayCluster) → IsStored c → Meets AnyError Any (private_network_id c)
unfolding private_network_id has_private_network
stored_id c stored = ground arith

module _ {S : Type 0} (h : Handler S) (calm : IsCalm h) (sdk : Sdk) (plain : IsPlain sdk)
    (c : Scope) where
  vpc_get-Runs :
      should_manage_private_network c.cluster ≡ true → Runs h AnyError Any (get_or_create_pn sdk c)
  unfolding get_or_create_pn should_manage_private_network has_private_network
  vpc_get-Runs managed s = let cidr = plain.cidr in grind (arith, calm, cidr)

  stored_id-Stored :
      (r : Result PrivateNetwork)
      → Meets AnyError Any r
      → Meets AnyError (λ _. IsStored (store_id sdk c r).1) (store_id sdk c r).0
  unfolding set_status_private_network_id
  stored_id-Stored (ok pn) fine = λ has p. absurd (cc)
  stored_id-Stored (err e) fine = tt
  stored_id-Stored panicked fine = fine

  pub vpc-Runs :
      IsUsable c.cluster
      → (s : S)
      → Meets AnyError
          (λ _. IsStored (result h (reconcile sdk c) s).1)
          (result h (reconcile sdk c) s).0
  vpc-Runs usable s = elim (Bool-cases (should_manage_private_network c.cluster)) [
    | inl managed ↦
        rw (reconcile-managed h sdk c s managed).0
          (stored_id-Stored (result h (get_or_create_pn sdk c) s) (vpc_get-Runs managed s))
    | inr unmanaged ↦ rw (reconcile-unmanaged h sdk c s unmanaged).0 (λ has. usable has unmanaged)
  ]

  pub vpc_delete-Runs : Runs h AnyError Any (delete sdk c)
  unfolding delete
  vpc_delete-Runs s = grind (arith, calm)
