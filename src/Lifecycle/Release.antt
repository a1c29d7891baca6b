-- ===== src/Lifecycle/Release.antt =====
-- What has been done when a cluster loses its finalizer.
use cluster_api_provider_sca.Prelude.{◌≡◌, ap, ◌∙◌, true, false, inl, inr}
use cluster_api_provider_sca.Result.{ok}
use cluster_api_provider_sca.Sdk.{Sdk}
use cluster_api_provider_sca.Prog.{Handler, result}
use cluster_api_provider_sca.Client.{Client}
use cluster_api_provider_sca.Api.Cluster.{ScalewayCluster, cluster_finalizer}
use cluster_api_provider_sca.Service.Vpc
use cluster_api_provider_sca.Service.Gateway
use cluster_api_provider_sca.Service.Balancer.Reconcile as Balancer
use cluster_api_provider_sca.Service.Group.Ensure as Group
use cluster_api_provider_sca.Controller.Finalizers.{has_finalizer}
use cluster_api_provider_sca.Controller.Cluster.Laws.{reconcile_delete-finalizer}
use cluster_api_provider_sca.Controller.Cluster.Order.{
  without_balancer, without_gateway, without_network, scope, reconcile_delete-order,
}
use cluster_api_provider_sca.Controller.Cluster.Ready.{reconcile_normal-Marked}
use cluster_api_provider_sca.Lifecycle.{
  Step, reconciles, reports, persists, finalizes, deletes, updates, marks, drifts,
}
use cluster_api_provider_sca.Lifecycle.Phases.{finalizer_added}

module _ {S : Type 0} (h : Handler S) (sdk : Sdk) (client : Client) where
  -- The cluster was to be deleted, and the deletions of its four parts succeeded, in their order.
  abbrev pub IsReleased : S → ScalewayCluster → Type 0
  IsReleased s c =
      (c.meta.deleting ≡ true)
      × (result h (Balancer.delete (scope h sdk client c s)) s ≡ ok tt)
      × (result h (Gateway.delete (scope h sdk client c s)) (without_balancer h sdk client c s)
          ≡ ok tt)
      × (result h (Vpc.delete sdk (scope h sdk client c s)) (without_gateway h sdk client c s)
          ≡ ok tt)
      × (result h (Group.delete sdk (scope h sdk client c s)) (without_network h sdk client c s)
          ≡ ok tt)

  -- A step that takes the finalizer of a cluster away is a deletion of a cluster that was marked
  -- for it, of which the deletions of the Load Balancer, the Public Gateway, the Private Network
  -- and the security groups succeeded.
  pub step_releases :
      {s : S} {c : ScalewayCluster} {t : S} {d : ScalewayCluster}
      → Step h sdk client s c t d
      → has_finalizer cluster_finalizer c.meta ≡ true
      → has_finalizer cluster_finalizer d.meta ≡ false
      → IsReleased s c
  step_releases (reconciles {s = s} {c = c} live) held lost =
      let (meta, _) = reconcile_normal-Marked h sdk client c s in
      let kept = ap (has_finalizer cluster_finalizer) meta ∙ finalizer_added sdk client c in
      absurd (cc)
  step_releases (persists {s = s} {c = c} live) held lost =
      let (meta, _) = reconcile_normal-Marked h sdk client c s in
      let kept = ap (has_finalizer cluster_finalizer) meta ∙ finalizer_added sdk client c in
      absurd (cc)
  step_releases (reports {c = c} live) held lost =
      let kept = finalizer_added sdk client c in absurd (cc)
  step_releases (finalizes {c = c} live) held lost =
      let kept = finalizer_added sdk client c in absurd (cc)
  step_releases (deletes {s = s} {c = c} dying) held lost =
      elim (reconcile_delete-finalizer h sdk client c s) [
        | inl p ↦
            let (_, balancer, gateway, network, groups) =
              reconcile_delete-order h sdk client c s p.0 in
            (dying, balancer, gateway, network, groups)
        | inr p ↦
            let same = ap (λ (d : ScalewayCluster). has_finalizer cluster_finalizer d.meta) p.1 in
            absurd (cc)
      ]
  step_releases (updates checked) held lost = absurd (cc)
  step_releases marks held lost = absurd (cc)
  step_releases drifts held lost = absurd (cc)
