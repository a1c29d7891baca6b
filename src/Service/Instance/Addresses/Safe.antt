-- ===== src/Service/Instance/Addresses/Safe.antt =====
-- Panics of the addresses of a machine, internal/service/scaleway/instance/instance.go.
use cluster_api_provider_sca.Prelude.{Option, some, none, arith, String, Bool, true, false}
use cluster_api_provider_sca.Cloud.Instance.{PrivateNic, Server}
use cluster_api_provider_sca.Prog.{Handler}
use cluster_api_provider_sca.Prog.Runs.{Runs, AnyError, Any, Meets, IsCalm}
use cluster_api_provider_sca.Client.Balancer.{
  find_load_balancer_by_name, find_load_balancer_backend_by_names,
  find_load_balancer_frontend_by_names, find_load_balancer_acl_by_name,
}
use cluster_api_provider_sca.Client.Network.{find_ipv4_by_instance_private_nic_id}
use cluster_api_provider_sca.Scope.Machine.{MachineScope}
use cluster_api_provider_sca.Service.Instance.Addresses.{
  MachineIps, node_ip, internal_ip_of, get_machine_ips, delete_acl_if_found, write_acl, set_acl,
  ensure_load_balancer_acl, update_pool, ensure_control_plane_load_balancer,
}

-- One of the two addresses is there.
abbrev pub HaveNode : MachineIps → Type 0
HaveNode ips = Meets AnyError Any (node_ip ips)

module _ {S : Type 0} (h : Handler S) (calm : IsCalm h) (m : MachineScope) where
  pub ips-Runs :
      (server : Server) (nic : Option PrivateNic)
      → Runs h AnyError HaveNode (get_machine_ips m server nic)
  unfolding get_machine_ips internal_ip_of find_ipv4_by_instance_private_nic_id node_ip
  ips-Runs server none s = grind (arith, calm)
  ips-Runs server (some nic) s = grind (arith, calm)

  pub pool-Runs :
      (ips : MachineIps) (deletion : Bool)
      → HaveNode ips
      → Runs h AnyError Any (ensure_control_plane_load_balancer m ips deletion)
  unfolding ensure_control_plane_load_balancer update_pool find_load_balancer_backend_by_names
      find_load_balancer_by_name
  pool-Runs ips true have s = grind (arith, calm, have)
  pool-Runs ips false have s = grind (arith, calm, have)

  pub acl-Runs : (ip : Option String) → Runs h AnyError Any (ensure_load_balancer_acl m ip)
  unfolding ensure_load_balancer_acl set_acl delete_acl_if_found write_acl
      find_load_balancer_frontend_by_names find_load_balancer_by_name find_load_balancer_acl_by_name
  acl-Runs none s = grind (arith, calm)
  acl-Runs (some ip) s = grind (arith, calm)
