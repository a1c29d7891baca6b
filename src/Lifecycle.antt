-- ===== src/Lifecycle.antt =====
-- A ScalewayCluster in the API server, and what happens to it, one step after another:
-- reconciliations and deletions by internal/controller/scalewaycluster_controller.go, updates that
-- api/v1beta1/scalewaycluster_webhook.go admits, and the mark of a deletion.
pub mod Invariants
pub mod Phases
pub mod Release
pub mod Machines
use cluster_api_provider_sca.Prelude.{◌≡◌, true, false, Bool, if◌then◌else◌}
use cluster_api_provider_sca.Result.{ok}
use cluster_api_provider_sca.Sdk.{Sdk}
use cluster_api_provider_sca.Prog.{Handler, result, final}
use cluster_api_provider_sca.Client.{Client}
use cluster_api_provider_sca.Api.Cluster.{ScalewayCluster, ScalewayClusterSpec, cluster_finalizer}
use cluster_api_provider_sca.Webhook.Field.{admitted}
use cluster_api_provider_sca.Webhook.Cluster.{validate_update}
use cluster_api_provider_sca.Controller.Finalizers.{has_finalizer}
use cluster_api_provider_sca.Controller.Cluster.{with_finalizer, reconcile_normal, reconcile_delete}

-- The object with a deletion timestamp.
abbrev pub with_deletion : ScalewayCluster → ScalewayCluster
with_deletion c = record c { meta = record c.meta { deleting = true } }

module _ {S : Type 0} (h : Handler S) (sdk : Sdk) (client : Client) where
  -- The object of which only the finalizer and the status of a reconciliation were stored.
  abbrev pub reported : S → ScalewayCluster → ScalewayCluster
  reported s c = record (with_finalizer sdk client c) {
    status = (result h (reconcile_normal sdk client c) s).1.status;
  }

  -- The object of which all but the status of a reconciliation was stored.
  abbrev pub persisted : S → ScalewayCluster → ScalewayCluster
  persisted s c = record (result h (reconcile_normal sdk client c) s).1 { status = c.status }

  -- The state of the outside and the object, before and after. A reconciliation is stored whole, or
  -- its first patch alone (`finalizes`), or after that its status alone (`reports`) or all but its
  -- status (`persists`); `drifts` is any
  -- change outside, that of a run whose patches were all refused included. A user's update changes
  -- the specification alone: the status is a subresource.
  pub data Step : S → ScalewayCluster → S → ScalewayCluster → Type 0 where
    reconciles :
        {s : S} {c : ScalewayCluster}
        → c.meta.deleting ≡ false
        → Step s c
            (final h (reconcile_normal sdk client c) s)
            (result h (reconcile_normal sdk client c) s).1
    reports :
        {s : S} {c : ScalewayCluster}
        → c.meta.deleting ≡ false
        → Step s c (final h (reconcile_normal sdk client c) s) (reported s c)
    persists :
        {s : S} {c : ScalewayCluster}
        → c.meta.deleting ≡ false
        → Step s c (final h (reconcile_normal sdk client c) s) (persisted s c)
    finalizes :
        {s t : S} {c : ScalewayCluster}
        → c.meta.deleting ≡ false
        → Step s c t (with_finalizer sdk client c)
    deletes :
        {s : S} {c : ScalewayCluster}
        → c.meta.deleting ≡ true
        → Step s c
            (final h (reconcile_delete sdk client c) s)
            (result h (reconcile_delete sdk client c) s).1
    updates :
        {s : S} {c : ScalewayCluster} {spec : ScalewayClusterSpec}
        → validate_update sdk (record c { spec = spec }) c ≡ ok admitted
        → Step s c s (record c { spec = spec })
    marks : {s : S} {c : ScalewayCluster} → Step s c s (with_deletion c)
    drifts : {s t : S} {c : ScalewayCluster} → Step s c t c

  -- Any number of steps.
  pub data Reaches (s : S) (c : ScalewayCluster) : S → ScalewayCluster → Type 0 where
    start : Reaches s c s c
    next : {t u : S} {d e : ScalewayCluster} → Reaches s c t d → Step t d u e → Reaches s c u e
