-- ===== src/Service/Instance/Reconcile/Safe.antt =====
-- Panics of `Reconcile` of internal/service/scaleway/instance/instance.go.
use cluster_api_provider_sca.Prelude.{false, arith}
use cluster_api_provider_sca.Sdk.{Sdk}
use cluster_api_provider_sca.Sdk.Plain.{IsPlain}
use cluster_api_provider_sca.Cloud.Instance.{Server}
use cluster_api_provider_sca.Prog.{Io, Handler, ret, pure, result, ◌>>=◌, ◌>>◌}
use cluster_api_provider_sca.Prog.Laws.{result-bind}
use cluster_api_provider_sca.Prog.Runs.{Runs, Runs-bind, AnyError, Any, Meets, IsCalm}
use cluster_api_provider_sca.Scope.Machine.{MachineScope}
use cluster_api_provider_sca.Service.Vpc.Safe.{IsStored}
use cluster_api_provider_sca.Service.Instance.Create.{
  get_or_create_ip, get_or_create_server, get_or_create_private_nic,
}
use cluster_api_provider_sca.Service.Instance.Create.Safe.{ip-Runs, server-Runs, nic-Runs}
use cluster_api_provider_sca.Service.Instance.Addresses.{
  MachineIps, get_machine_ips, ensure_control_plane_load_balancer, ensure_load_balancer_acl,
}
use cluster_api_provider_sca.Service.Instance.Addresses.Safe.{
  HaveNode, ips-Runs, pool-Runs, acl-Runs,
}
use cluster_api_provider_sca.Service.Instance.Boot.{ensure_cloud_init, ensure_server_started}
use cluster_api_provider_sca.Service.Instance.Boot.Safe.{cloud_init-Runs, started-Runs}
use cluster_api_provider_sca.Service.Instance.Reconcile.{ensure_server, store_server, reconcile}

module _ {S : Type 0} (h : Handler S) (calm : IsCalm h) (sdk : Sdk) (plain : IsPlain sdk)
    (m : MachineScope) where
  -- The calls after the addresses are known.
  abbrev booting : Server → MachineIps → Io (Server × MachineIps)
  booting server ips =
      ensure_cloud_init sdk m server ips >> (ensure_server_started server >> pure (server, ips))

  booting-Runs :
      (server : Server) (ips : MachineIps) → HaveNode ips → Runs h AnyError Any (booting server ips)
  booting-Runs server ips have =
      Runs-bind h AnyError Any Any (ensure_cloud_init sdk m server ips)
        (λ _. ensure_server_started server >> pure (server, ips))
        (cloud_init-Runs h calm sdk plain m server ips have)
        (λ _ _.
          Runs-bind h AnyError Any Any (ensure_server_started server) (λ _. pure (server, ips))
            (started-Runs h calm server) (λ _ _ _. tt))

  abbrev joining : Server → MachineIps → Io (Server × MachineIps)
  joining server ips =
      ensure_control_plane_load_balancer m ips false
      >> (ensure_load_balancer_acl m ips.external >> booting server ips)

  joining-Runs :
      (server : Server) (ips : MachineIps) → HaveNode ips → Runs h AnyError Any (joining server ips)
  joining-Runs server ips have =
      Runs-bind h AnyError Any Any (ensure_control_plane_load_balancer m ips false)
        (λ _. ensure_load_balancer_acl m ips.external >> booting server ips)
        (pool-Runs h calm m ips false have)
        (λ _ _.
          Runs-bind h AnyError Any Any (ensure_load_balancer_acl m ips.external)
            (λ _. booting server ips) (acl-Runs h calm m ips.external)
            (λ _ _. booting-Runs server ips have))

  abbrev connecting : Server → Io (Server × MachineIps)
  connecting server =
      get_or_create_private_nic m server >>= λ nic. get_machine_ips m server nic >>= joining server

  connecting-Runs : IsStored m.cluster → (server : Server) → Runs h AnyError Any (connecting server)
  connecting-Runs stored server =
      Runs-bind h AnyError Any Any (get_or_create_private_nic m server)
        (λ nic. get_machine_ips m server nic >>= joining server) (nic-Runs h calm m stored server)
        (λ nic _.
          Runs-bind h AnyError HaveNode Any (get_machine_ips m server nic) (joining server)
            (ips-Runs h calm m server nic) (joining-Runs server))

  server_made-Runs : IsStored m.cluster → Runs h AnyError Any (ensure_server sdk m)
  unfolding ensure_server
  server_made-Runs stored =
      Runs-bind h AnyError Any Any (get_or_create_ip m)
        (λ ip. get_or_create_server m sdk ip >>= connecting) (ip-Runs h calm m)
        (λ ip _.
          Runs-bind h AnyError Any Any (get_or_create_server m sdk ip) connecting
            (server-Runs h calm m sdk ip) (λ server _. connecting-Runs stored server))

  pub machine-Runs :
      IsStored m.cluster → (s : S) → Meets AnyError Any (result h (reconcile sdk m) s).0
  unfolding reconcile
  machine-Runs stored s =
      let first = server_made-Runs stored s in
      rw (result-bind h (ensure_server sdk m) (λ r. ret (store_server sdk m r)) s)
        (grind (arith, first))
