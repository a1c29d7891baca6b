-- ===== src/Tests/Machines.antt =====
-- Runs of the service of the instances.
use cluster_api_provider_sca.Prelude.{
  ◌≡◌, ◌≢◌, refl, String, false, none, some, List, [], ◌∷◌, ◌++◌, is_some,
}
use cluster_api_provider_sca.Result.{ok, panicked}
use cluster_api_provider_sca.Cloud.{instance_api, balancer_api, network_api, kube_api}
use cluster_api_provider_sca.Cloud.Instance.{
  list_servers, detach_volume, delete_volume, delete_server, delete_ip, get_user_data,
  set_user_data, server_action,
}
use cluster_api_provider_sca.Cloud.Balancer.{
  LoadBalancer, Backend, ready, list_balancers, list_backends,
}
use cluster_api_provider_sca.Cloud.Network.{list_nic_ips}
use cluster_api_provider_sca.Cloud.Kube.{get_secret}
use cluster_api_provider_sca.Prog.{Handler, changes}
use cluster_api_provider_sca.Scope.Cluster
use cluster_api_provider_sca.Scope.Cluster.{region, load_balancer_zone, default_zone}
use cluster_api_provider_sca.Scope.Machine.{MachineScope, name}
use cluster_api_provider_sca.Client.Balancer.{
  find_load_balancer_backend_by_names, find_load_balancer_by_name,
}
use cluster_api_provider_sca.Service.Instance.Addresses.{
  MachineIps, node_ip, get_machine_ips, ensure_control_plane_load_balancer,
}
use cluster_api_provider_sca.Service.Instance.Addresses.Laws.{
  pool_change, get_machine_ips-node_ip, changes-ensure_control_plane,
}
use cluster_api_provider_sca.Service.Instance.Delete.{
  dispose, delete_flexible_ip, detach_volumes, delete_in, delete_boot_volume,
}
use cluster_api_provider_sca.Service.Instance.Delete.Laws.{
  flexible_ip_of, detach_all, end_of, changes-dispose,
}
use cluster_api_provider_sca.Tests.Fixtures.{silent, machine, server}

abbrev backend : Backend
backend = record { id = "backend"; name = "control-plane"; pool = [] }

abbrev balancer : LoadBalancer
balancer = record { id = "lb"; name = "caps-test"; zone = "fr-par-1"; status = ready; ips = [] }

-- An outside with some cloud-init data, that accepts every change of a server.
abbrev api : List (String × String) → Handler (Unit {0})
api entries (instance_api (list_servers _ _)) s = (ok [], s)
api entries (instance_api (get_user_data _ _)) s = (ok entries, s)
api entries (instance_api (set_user_data _ _ _ _)) s = (ok tt, s)
api entries (instance_api (server_action _ _ _)) s = (ok tt, s)
api entries (instance_api (detach_volume _ _)) s = (ok tt, s)
api entries (instance_api (delete_volume _ _)) s = (ok tt, s)
api entries (instance_api (delete_server _ _)) s = (ok tt, s)
api entries (instance_api (delete_ip _ _)) s = (ok tt, s)
api entries (balancer_api (list_balancers _ _)) s = (ok (balancer ∷ []), s)
api entries (balancer_api (list_backends _ _ _)) s = (ok (backend ∷ []), s)
api entries (network_api (list_nic_ips _ _ _)) s = (ok ("10.0.0.1" ∷ []), s)
api entries (kube_api (get_secret _ name)) s = (
  ok (record { name = name; owners = []; controller = none; entries = ("value", "data") ∷ [] }),
  s,
)
api entries q s = (silent q, s)

abbrev addresses : MachineIps
addresses = record { internal = some "10.0.0.1"; external = some "1.2.3.4" }

abbrev public_addresses : MachineIps
public_addresses = record { internal = none; external = some "1.2.3.4" }

get_machine_ips-node_ip_example :
    (node_ip public_addresses ≢ panicked)
    × (is_some public_addresses.internal ≡ false)
    × (public_addresses.external ≡ some "1.2.3.4")
unfolding get_machine_ips
get_machine_ips-node_ip_example =
    get_machine_ips-node_ip (api []) machine server none tt {ips = public_addresses} refl

changes-ensure_control_plane_example :
    changes (api []) (ensure_control_plane_load_balancer machine addresses false) tt
    ≡ pool_change machine backend "10.0.0.1" false
unfolding find_load_balancer_backend_by_names find_load_balancer_by_name Cluster.name
    load_balancer_zone node_ip
changes-ensure_control_plane_example =
    changes-ensure_control_plane (api []) machine addresses false tt {backend = backend}
      {ip = "10.0.0.1"} refl refl refl

abbrev early : MachineScope
early = record machine { machine = record machine.machine { data_secret_name = none } }

changes-dispose_example :
    changes (api []) (dispose server) tt
    ≡ flexible_ip_of server ++ (detach_all server server.volumes ++ end_of server.state server)
unfolding dispose delete_flexible_ip detach_volumes delete_in delete_boot_volume
changes-dispose_example = changes-dispose (api []) server tt refl
