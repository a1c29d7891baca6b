-- ===== src/Tests/Instances.antt =====
-- A run of a reconciliation of an instance that goes to its end.
use cluster_api_provider_sca.Prelude.{◌≡◌, refl, none, some, [], ◌∷◌}
use cluster_api_provider_sca.Result.{ok}
use cluster_api_provider_sca.Cloud.{instance_api, balancer_api, network_api, kube_api}
use cluster_api_provider_sca.Cloud.Kube.{get_secret}
use cluster_api_provider_sca.Cloud.Instance.{
  Server, list_servers, list_private_nics, in_state, get_user_data, set_user_data, server_action,
}
use cluster_api_provider_sca.Cloud.Balancer.{
  ready, list_balancers, list_backends, list_frontends, list_acls, create_acl, add_backend_servers,
}
use cluster_api_provider_sca.Cloud.Network.{list_nic_ips}
use cluster_api_provider_sca.Prog.{Handler, changes}
use cluster_api_provider_sca.Api.Machine.{ScalewayMachine, external_ip, internal_ip}
use cluster_api_provider_sca.Scope.Cluster
use cluster_api_provider_sca.Scope.Cluster.{
  region, load_balancer_zone, has_private_network, private_network_id,
}
use cluster_api_provider_sca.Scope.Machine.{
  get_raw_bootstrap_data, name, zone, needs_public_ip, provider_id,
}
use cluster_api_provider_sca.Client.Instance.{find_instance_by_name, find_private_nic_by_pn_id}
use cluster_api_provider_sca.Client.Balancer.{
  find_load_balancer_by_name, find_load_balancer_backend_by_names,
  find_load_balancer_frontend_by_names, find_load_balancer_acl_by_name,
}
use cluster_api_provider_sca.Client.Network.{find_ipv4_by_instance_private_nic_id}
use cluster_api_provider_sca.Service.Instance.Create.{
  get_or_create_ip, get_or_create_server, get_or_create_private_nic,
}
use cluster_api_provider_sca.Service.Instance.Addresses.{
  MachineIps, node_ip, get_machine_ips, ensure_control_plane_load_balancer,
  ensure_load_balancer_acl,
}
use cluster_api_provider_sca.Service.Instance.Boot.{
  ensure_cloud_init, ensure_server_started, patch_bootstrap_data,
}
use cluster_api_provider_sca.Service.Instance.Reconcile.{
  reconcile, ensure_server, store_server, addresses_of,
}
use cluster_api_provider_sca.Service.Instance.Reconcile.Order.{
  Steps, allowed, prepared, reconcile-Steps,
}
use cluster_api_provider_sca.Service.Instance.Reconcile.Booted.{reconcile-IsPrepared}
use cluster_api_provider_sca.Service.Instance.Boot.First.{IsPrepared, IsStarted}
use cluster_api_provider_sca.Tests.Fixtures.{silent, libraries, machine, server}

abbrev running : Server
running = record server { state = in_state "running" }

-- An outside where the server runs, and the Load Balancer does not know it yet.
abbrev pub cloud : Handler (Unit {0})
cloud (instance_api (list_servers _ _)) s = (ok (running ∷ []), s)
cloud (instance_api (list_private_nics _ _)) s =
    (ok (record { id = "nic"; private_network_id = "pn" } ∷ []), s)
cloud (network_api (list_nic_ips _ _ _)) s = (ok ("10.0.0.1" ∷ []), s)
cloud (balancer_api (list_balancers _ _)) s = (
  ok (record { id = "lb"; name = "caps-test"; zone = "fr-par-1"; status = ready; ips = [] } ∷ []),
  s,
)
cloud (balancer_api (list_backends _ _ _)) s =
    (ok (record { id = "backend"; name = "control-plane"; pool = [] } ∷ []), s)
cloud (balancer_api (add_backend_servers _ _ _)) s = (ok tt, s)
cloud (balancer_api (list_frontends _ _ _)) s =
    (ok (record { id = "frontend"; name = "control-plane"; inbound_port = 6443 } ∷ []), s)
cloud (balancer_api (list_acls _ _ _)) s = (ok [], s)
cloud (balancer_api (create_acl _)) s = (ok tt, s)
cloud q s = (silent q, s)

abbrev reconciled : ScalewayMachine
reconciled = record machine.scaleway_machine {
  spec = record machine.scaleway_machine.spec {
    provider_id = some "scaleway://instance/fr-par-1/server";
  };
  status = record machine.scaleway_machine.status {
    addresses = external_ip "1.2.3.4" ∷ internal_ip "10.0.0.1" ∷ [];
  };
}

reconcile-Steps_example :
    (found : Server) × (ips : MachineIps) × Steps cloud libraries machine tt found ips
      (changes cloud (reconcile libraries machine) tt)
    × (reconciled ≡ (store_server libraries machine (ok (found, ips))).1)
unfolding reconcile ensure_server get_or_create_ip needs_public_ip get_or_create_server
    find_instance_by_name name zone get_or_create_private_nic has_private_network private_network_id
    find_private_nic_by_pn_id get_machine_ips find_ipv4_by_instance_private_nic_id region
    ensure_control_plane_load_balancer find_load_balancer_backend_by_names
    find_load_balancer_by_name Cluster.name load_balancer_zone node_ip ensure_load_balancer_acl
    find_load_balancer_frontend_by_names find_load_balancer_acl_by_name ensure_cloud_init
    ensure_server_started addresses_of provider_id
reconcile-Steps_example = reconcile-Steps cloud libraries machine tt {m' = reconciled} refl

-- An outside where the server is stopped, without cloud-init data.
abbrev booting : Handler (Unit {0})
booting (instance_api (list_servers _ _)) s = (ok (server ∷ []), s)
booting (instance_api (get_user_data _ _)) s = (ok [], s)
booting (instance_api (set_user_data _ _ _ _)) s = (ok tt, s)
booting (instance_api (server_action _ _ _)) s = (ok tt, s)
booting (kube_api (get_secret _ name)) s = (
  ok (record { name = name; owners = []; controller = none; entries = ("value", "data") ∷ [] }),
  s,
)
booting q s = cloud q s

reconcile-IsPrepared_example :
    (found : Server) × (ips : MachineIps) × (run : Steps booting libraries machine tt found ips
      (changes booting (reconcile libraries machine) tt))
    × IsPrepared booting libraries machine found ips
        (allowed booting libraries machine tt run.ip found run.nic ips)
    × IsStarted found (
        changes booting
          (ensure_server_started found)
          (prepared booting libraries machine tt run.ip found run.nic ips))
unfolding reconcile ensure_server get_or_create_ip needs_public_ip get_or_create_server
    find_instance_by_name name zone get_or_create_private_nic has_private_network private_network_id
    find_private_nic_by_pn_id get_machine_ips find_ipv4_by_instance_private_nic_id region
    ensure_control_plane_load_balancer find_load_balancer_backend_by_names
    find_load_balancer_by_name Cluster.name load_balancer_zone node_ip ensure_load_balancer_acl
    find_load_balancer_frontend_by_names find_load_balancer_acl_by_name ensure_cloud_init
    ensure_server_started addresses_of provider_id get_raw_bootstrap_data patch_bootstrap_data
reconcile-IsPrepared_example =
    reconcile-IsPrepared booting libraries machine tt {m' = reconciled} refl
