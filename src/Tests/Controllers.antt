-- ===== src/Tests/Controllers.antt =====
-- Runs of the reconcilers of clusters and machines, over an outside that answers nothing.
use cluster_api_provider_sca.Prelude.{◌≡◌, ◌≢◌, ◌⊎◌, ◌↔◌}
use cluster_api_provider_sca.Result.{ok}
use cluster_api_provider_sca.Prog.{Handler, result, final}
use cluster_api_provider_sca.Controller.Cluster as Clusters
use cluster_api_provider_sca.Controller.Cluster.{done, after, close}
use cluster_api_provider_sca.Controller.Cluster.Laws.{reconcile_delete-finalizer}
use cluster_api_provider_sca.Controller.Cluster.Ready.{Marked}
use cluster_api_provider_sca.Controller.Cluster.Done.{IsServed, prepared, reconcile_normal-ready}
use cluster_api_provider_sca.Controller.Machine as Machines
use cluster_api_provider_sca.Controller.Machine.Laws.{Released, machine_delete-finalizer}
use cluster_api_provider_sca.Service.Instance.Delete as Deleter
use cluster_api_provider_sca.Tests.Fixtures.{silent, libraries, client, cluster, machine}

abbrev nothing : Handler (Unit {0})
nothing q s = (silent q, s)

reconcile_delete-finalizer_example :
    let o = result nothing (Clusters.reconcile_delete libraries client cluster) tt in
    ((o.0 ≡ ok done) × (o.1 ≡ Clusters.without_finalizer libraries client cluster))
    ⊎ ((o.0 ≢ ok done) × (o.1 ≡ cluster))
reconcile_delete-finalizer_example = reconcile_delete-finalizer nothing libraries client cluster tt

reconcile_normal-ready_example :
    let o = result nothing (Clusters.reconcile_normal libraries client cluster) tt in
    let patch = Clusters.patch_finalizer libraries client cluster in
    ((o.0 ≡ ok done) ↔ (
      (result nothing patch tt ≡ ok tt)
      × IsServed nothing libraries client
          (prepared nothing libraries client cluster)
          (final nothing patch tt)))
    × Marked (Clusters.with_finalizer libraries client cluster) o
reconcile_normal-ready_example = reconcile_normal-ready nothing libraries client cluster tt

machine_delete-finalizer_example :
    Released machine.scaleway_machine
      (result nothing (Deleter.delete machine) tt)
      (result nothing (Machines.reconcile_delete machine) tt)
machine_delete-finalizer_example = machine_delete-finalizer nothing machine tt
