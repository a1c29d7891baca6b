-- ===== src/Tests/Lifecycles.antt =====
-- Runs of whole reconciliations, and the lifecycle of a cluster.
use cluster_api_provider_sca.Prelude.{◌≡◌, ◌≢◌, refl, false, ◌==◌, String}
use cluster_api_provider_sca.Result.{Result, ok, err, panicked}
use cluster_api_provider_sca.Sdk.Plain.{IsPlain}
use cluster_api_provider_sca.Prog.{result}
use cluster_api_provider_sca.Prog.Runs.{Meets, AnyError, Any, either}
use cluster_api_provider_sca.Api.Cluster.{cluster_finalizer, ScalewayCluster}
use cluster_api_provider_sca.Scope.Cluster.{
  has_public_gateway, has_private_network, should_manage_private_network,
}
use cluster_api_provider_sca.Webhook.Field.{admitted}
use cluster_api_provider_sca.Webhook.Cluster.{validate_create, validate_update}
use cluster_api_provider_sca.Service.Balancer.Reconcile.{first_ipv4}
use cluster_api_provider_sca.Controller.Cluster as Clusters
use cluster_api_provider_sca.Controller.Cluster.{done, after}
use cluster_api_provider_sca.Controller.Cluster.Safe.{Fine, reconcile_normal-Fine}
use cluster_api_provider_sca.Controller.Cluster.Whole
use cluster_api_provider_sca.Controller.Cluster.Whole.{reconcile_calm}
use cluster_api_provider_sca.Controller.Machine as Machines
use cluster_api_provider_sca.Controller.Machine.Safe as Machine
use cluster_api_provider_sca.Controller.Machine.Safe.{machine_reconcile_calm}
use cluster_api_provider_sca.Service.Vpc.Safe.{IsStored}
use cluster_api_provider_sca.Webhook.Immutable.Laws.{IsUnchanged}
use cluster_api_provider_sca.Controller.Finalizers.{has_finalizer}
use cluster_api_provider_sca.Client.Balancer.{find_load_balancer_by_name}
use cluster_api_provider_sca.Client.Network.{find_private_network_by_name}
use cluster_api_provider_sca.Service.Vpc
use cluster_api_provider_sca.Service.Gateway
use cluster_api_provider_sca.Service.Balancer.Reconcile as Balancer
use cluster_api_provider_sca.Service.Group.Ensure as Group
use cluster_api_provider_sca.Lifecycle.{
  Step, Reaches, reconciles, deletes, marks, start, next, with_deletion,
}
use cluster_api_provider_sca.Lifecycle.Invariants.{reaches_kept, patch-admitted}
use cluster_api_provider_sca.Lifecycle.Phases.{Move, phase, step-Move}
use cluster_api_provider_sca.Lifecycle.Release.{IsReleased, step_releases}
use cluster_api_provider_sca.Tests.Fixtures.{unavailable, libraries, client, cluster}
use cluster_api_provider_sca.Tests.Serving.{serving}
use cluster_api_provider_sca.Tests.Ends.{fresh, fresh-admitted}

libraries-IsPlain : IsPlain libraries
libraries-IsPlain = record {
  region = λ text.
      either (λ (r : Result String). Meets AnyError Any r) (text == "fr-par") (ok text)
        (err unavailable) tt tt;
  zone = λ text.
      either (λ (r : Result String). Meets AnyError Any r) (text == "fr-par-1") (ok text)
        (err unavailable) tt tt;
  region_of = λ zone.
      either (λ (r : Result String). Meets AnyError Any r) (zone == "fr-par-1") (ok "fr-par")
        (err unavailable) tt tt;
  cidr = λ text. tt;
  addr = λ text. tt;
  template = λ text. tt;
  execute = λ template node provider. tt;
}

cluster-IsServed : Whole.IsServed serving
unfolding has_private_network should_manage_private_network
cluster-IsServed = record {
  calm = λ q s. tt;
  usable = λ namespace name s has unmanaged p. absurd (cc);
  projects = λ options s p. absurd (cc);
}

reconcile_calm_example :
    result serving (Clusters.reconcile libraries "default" "test") tt ≢ panicked
reconcile_calm_example =
    reconcile_calm serving cluster-IsServed libraries libraries-IsPlain "default" "test" tt

machine-IsServed : Machine.IsServed serving
unfolding has_private_network
machine-IsServed = record {
  calm = λ q s. tt;
  stored = λ namespace name s has p. absurd (cc);
  referring = λ child s p. absurd (cc);
  projects = λ options s p. absurd (cc);
}

machine_reconcile_calm_example :
    result serving (Machines.reconcile libraries "default" "test") tt ≢ panicked
machine_reconcile_calm_example =
    machine_reconcile_calm serving machine-IsServed libraries libraries-IsPlain "default" "test" tt

reconcile_normal-Fine_example :
    let o = result serving (Clusters.reconcile_normal libraries client fresh) tt in Fine IsStored o
unfolding has_private_network should_manage_private_network
reconcile_normal-Fine_example =
    reconcile_normal-Fine serving (λ q s. tt) libraries libraries-IsPlain client fresh
      (λ has unmanaged. absurd (cc)) tt

abbrev reconciled : ScalewayCluster
reconciled = (result serving (Clusters.reconcile_normal libraries client fresh) tt).1

abbrev first_step : Step serving libraries client tt fresh tt reconciled
first_step = reconciles {s = tt} {c = fresh} refl

step-Move_example : Move (phase fresh) (phase reconciled)
step-Move_example =
    step-Move serving libraries client {s = tt} {c = fresh} {t = tt} {d = reconciled} first_step

abbrev marked : Reaches serving libraries client tt fresh tt (with_deletion reconciled)
marked =
    next {t = tt} {u = tt} {d = reconciled} {e = with_deletion reconciled}
      (next {t = tt} {u = tt} {d = fresh} {e = reconciled} start first_step)
      (marks {s = tt} {c = reconciled})

reaches_kept_example :
    (validate_create libraries (with_deletion reconciled) ≡ ok admitted)
    × IsUnchanged (with_deletion reconciled) fresh
reaches_kept_example =
    reaches_kept serving libraries client {s = tt} {c = fresh} {t = tt}
      {d = with_deletion reconciled} marked fresh-admitted

patch-admitted_example :
    (validate_update libraries (Clusters.with_finalizer libraries client fresh) fresh ≡ ok admitted)
    × (validate_update libraries reconciled fresh ≡ ok admitted)
    × (validate_update libraries
          (result serving (Clusters.reconcile_delete libraries client fresh) tt).1
          fresh
        ≡ ok admitted)
patch-admitted_example = patch-admitted serving libraries client fresh tt fresh-admitted

abbrev leaving_cluster : ScalewayCluster
leaving_cluster = with_deletion (Clusters.with_finalizer libraries client cluster)

leaving_lost :
    has_finalizer cluster_finalizer
      (result serving (Clusters.reconcile_delete libraries client leaving_cluster) tt).1.meta
    ≡ false
unfolding Clusters.reconcile_delete Clusters.delete_network Balancer.delete
    find_load_balancer_by_name Gateway.delete has_private_network has_public_gateway Vpc.delete
    should_manage_private_network find_private_network_by_name Group.delete
    Group.ensure_security_groups Group.prune_groups Group.ensure_each
leaving_lost = refl

step_releases_example : IsReleased serving libraries client tt leaving_cluster
step_releases_example =
    step_releases serving libraries client {s = tt} {c = leaving_cluster} {t = tt}
      {d = (result serving (Clusters.reconcile_delete libraries client leaving_cluster) tt).1}
      (deletes {s = tt} {c = leaving_cluster} refl) refl leaving_lost
