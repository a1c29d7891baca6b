-- ===== src/Service/Instance/Reconcile/Booted.antt =====
-- The end of `Reconcile` of internal/service/scaleway/instance/instance.go: the cloud-init data and
-- the start of the server.
use cluster_api_provider_sca.Prelude.{◌≡◌}
use cluster_api_provider_sca.Result.{ok}
use cluster_api_provider_sca.Sdk.{Sdk}
use cluster_api_provider_sca.Cloud.Instance.{Server}
use cluster_api_provider_sca.Prog.{Handler, result, changes}
use cluster_api_provider_sca.Api.Machine.{ScalewayMachine}
use cluster_api_provider_sca.Scope.Machine.{MachineScope}
use cluster_api_provider_sca.Service.Instance.Addresses.{MachineIps}
use cluster_api_provider_sca.Service.Instance.Boot.{ensure_server_started}
use cluster_api_provider_sca.Service.Instance.Boot.First.{
  IsPrepared, IsStarted, cloud_init-IsPrepared, start-IsStarted,
}
use cluster_api_provider_sca.Service.Instance.Reconcile.{reconcile}
use cluster_api_provider_sca.Service.Instance.Reconcile.Order.{
  Steps, allowed, prepared, reconcile-Steps,
}

-- A reconciliation of an instance that succeeds goes through its eight steps, and in the last two,
-- a server that is not stopped is neither written to nor started. One that is stopped has cloud-init
-- data before, or gets the bootstrap data of the machine, with the address of the node and the
-- identifier of the server put in, and nothing else is changed in that step; and it is started in
-- the step after that.
pub reconcile-IsPrepared :
    {S : Type 0} (h : Handler S) (sdk : Sdk) (m : MachineScope) (s : S) {m' : ScalewayMachine}
    → result h (reconcile sdk m) s ≡ (ok tt, m')
    → (server : Server) × (ips : MachineIps) × (run : Steps h sdk m s server ips
        (changes h (reconcile sdk m) s))
      × IsPrepared h sdk m server ips (allowed h sdk m s run.ip server run.nic ips)
      × IsStarted server
          (changes h (ensure_server_started server) (prepared h sdk m s run.ip server run.nic ips))
reconcile-IsPrepared h sdk m s done =
    let (server, ips, run, _) = reconcile-Steps h sdk m s done in
    (
      server,
      ips,
      run,
      cloud_init-IsPrepared h sdk m server ips (allowed h sdk m s run.ip server run.nic ips)
          run.initialised,
      start-IsStarted h server (prepared h sdk m s run.ip server run.nic ips),
    )
