-- ===== src/Controller/Cluster/First.antt =====
-- About the patches at the start and at the end of a reconciliation of a cluster.
use cluster_api_provider_sca.Prelude.{◌≡◌, ◌↔◌, false, [], ◌∷◌, arith}
use cluster_api_provider_sca.Result.{Error, ok, err}
use cluster_api_provider_sca.Sdk.{Sdk}
use cluster_api_provider_sca.Cloud.{kube_api}
use cluster_api_provider_sca.Cloud.Kube.{patch_cluster}
use cluster_api_provider_sca.Prog.{Handler, result, requests}
use cluster_api_provider_sca.Client.{Client}
use cluster_api_provider_sca.Api.Cluster.{ScalewayCluster, cluster_finalizer}
use cluster_api_provider_sca.Scope.Cluster.{patch_object}
use cluster_api_provider_sca.Controller.Finalizers.{has_finalizer}
use cluster_api_provider_sca.Controller.Cluster.{
  Requeue, Outcome, with_finalizer, patch_finalizer, reconcile_normal, close,
}

module _ {S : Type 0} (h : Handler S) where
  -- Where the finalizer has to be added and storing it fails, nothing else is asked for.
  pub reconcile_normal-unstored :
      (sdk : Sdk) (client : Client) (c : ScalewayCluster) (s : S) {e : Error}
      → has_finalizer cluster_finalizer c.meta ≡ false
      → (h (kube_api (patch_cluster (with_finalizer sdk client c))) s).0 ≡ err e
      → (result h (reconcile_normal sdk client c) s ≡ (err e, with_finalizer sdk client c))
        × (requests h (reconcile_normal sdk client c) s
            ≡ kube_api (patch_cluster (with_finalizer sdk client c)) ∷ [])
  unfolding reconcile_normal patch_finalizer patch_object
  reconcile_normal-unstored sdk client c s absent failed = ground arith

  -- Whatever the outcome, the object is patched once, with what the outcome left, and the
  -- reconciler succeeds exactly when the outcome is a success and the patch is one.
  pub close-ok :
      (o : Outcome) (s : S) (q : Requeue)
      → (requests h (close o) s ≡ kube_api (patch_cluster o.1) ∷ [])
        × ((result h (close o) s ≡ ok q)
            ↔ ((o.0 ≡ ok q) × ((h (kube_api (patch_cluster o.1)) s).0 ≡ ok tt)))
  unfolding close patch_object
  close-ok o s q = ground arith
