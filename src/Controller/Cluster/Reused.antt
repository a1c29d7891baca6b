-- ===== src/Controller/Cluster/Reused.antt =====
-- Clusters that reuse a Private Network: `reconcileNormal` of
-- internal/controller/scalewaycluster_controller.go with `PrivateNetworkID` of
-- internal/scope/cluster.go.
use cluster_api_provider_sca.Prelude.{
  ◌≡◌, ◌≢◌, ap, ◌∙◌, true, false, Bool-cases, inl, inr, none, arith,
}
use cluster_api_provider_sca.Result.{Result, ok}
use cluster_api_provider_sca.Sdk.{Sdk}
use cluster_api_provider_sca.Prog.{Handler, result, final}
use cluster_api_provider_sca.Client.{Client}
use cluster_api_provider_sca.Api.Cluster.{ScalewayCluster, cluster_finalizer}
use cluster_api_provider_sca.Scope.Cluster.{has_private_network, should_manage_private_network}
use cluster_api_provider_sca.Service.Vpc.Laws.{reconcile-unmanaged}
use cluster_api_provider_sca.Service.Balancer.Reconcile.Unstored.{balancer_fails}
use cluster_api_provider_sca.Controller.Finalizers.{has_finalizer}
use cluster_api_provider_sca.Controller.Cluster.{
  done, patch_finalizer, with_finalizer, reconcile_normal,
}
use cluster_api_provider_sca.Controller.Cluster.Done.{
  scope, prepared, with_groups, networked, reconcile_normal-ready,
}

-- A cluster that reuses a Private Network, of which nothing has stored the identifier.
abbrev pub IsUnstored : ScalewayCluster → Type 0
IsUnstored c =
    (has_private_network c ≡ true)
    × (should_manage_private_network c ≡ false)
    × (c.status.network ≡ none)

module _ {S : Type 0} (h : Handler S) (sdk : Sdk) (client : Client) where
  prepared-IsUnstored : (c : ScalewayCluster) → IsUnstored c → IsUnstored (prepared h sdk client c)
  unfolding has_private_network should_manage_private_network
  prepared-IsUnstored c lost = elim (Bool-cases (has_finalizer cluster_finalizer c.meta)) [
    | inl has ↦ rw has lost
    | inr not_yet ↦ rw not_yet lost
  ]

  finalized_ready :
      (c : ScalewayCluster) → (with_finalizer sdk client c).status.ready ≡ c.status.ready
  finalized_ready c = ground arith

  -- A cluster that reuses a Private Network, and of which the status holds no network, never comes
  -- to the end of a reconciliation, whatever the outside answers, and is not marked ready by one:
  -- the service that would write the identifier leaves the object, and that of the Load Balancer
  -- needs the identifier.
  pub reconcile_normal-unstored_network :
      (c : ScalewayCluster) (s : S)
      → IsUnstored c
      → ((result h (reconcile_normal sdk client c) s).0 ≢ ok done)
        × ((result h (reconcile_normal sdk client c) s).1.status.ready ≡ c.status.ready)
  reconcile_normal-unstored_network c s lost =
      let lost' = prepared-IsUnstored c lost in
      let t =
        with_groups h sdk client (prepared h sdk client c)
          (final h (patch_finalizer sdk client c) s) in
      let kept : networked h sdk client (prepared h sdk client c) t ≡ prepared h sdk client c =
        ap (λ (p : Result (Unit {0}) × ScalewayCluster). p.1)
          (reconcile-unmanaged h sdk (scope h sdk client (prepared h sdk client c)) t lost'.1).0 in
      let (iff, marked) = reconcile_normal-ready h sdk client c s in
      let never : (result h (reconcile_normal sdk client c) s).0 ≢ ok done = λ ended.
        let (_, (_, _, (_, balanced))) = iff.0 ended in
        balancer_fails h sdk
          (scope h sdk client (networked h sdk client (prepared h sdk client c) t))
          (rw kept (lost'.0, lost'.2)) _ balanced in
      (never, elim marked.1 [ inl p ↦ absurd (never p.0) | inr p ↦ p.1 ∙ finalized_ready c ])
