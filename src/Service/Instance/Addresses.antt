-- ===== src/Service/Instance/Addresses.antt =====
-- The addresses of a machine, and its place in the Load Balancer: `getMachineIPs`,
-- `ensureLoadBalancerACL` and `ensureControlPlaneLoadBalancer`.
pub mod Laws
pub mod Safe
use cluster_api_provider_sca.Prelude.{
  String, Bool, true, false, ◌&&◌, not, Option, none, some, List, [], ◌∷◌, contains_func, ◌==◌,
  if◌then◌else◌,
}
use cluster_api_provider_sca.Result.{
  Error, Result, ok, err, panicked, wrapped, machine_has_no_ip, private_ip_not_found,
  is_no_item_found,
}
use cluster_api_provider_sca.Cloud.{balancer_api}
use cluster_api_provider_sca.Cloud.Instance.{Server, PrivateNic}
use cluster_api_provider_sca.Cloud.Balancer.{
  Acl, Frontend, Backend, allow, create_acl, update_acl, delete_acl, add_backend_servers,
  remove_backend_servers,
}
use cluster_api_provider_sca.Prog.{Prog, Io, ret, bind, ask, pure, lift, wrapping, or_nil, ◌>>=◌}
use cluster_api_provider_sca.Client.Balancer.{
  find_load_balancer_acl_by_name, find_load_balancer_backend_by_names,
  find_load_balancer_frontend_by_names,
}
use cluster_api_provider_sca.Client.Network.{find_ipv4_by_instance_private_nic_id}
use cluster_api_provider_sca.Scope.Cluster
use cluster_api_provider_sca.Scope.Cluster.{region, load_balancer_zone, contains}
use cluster_api_provider_sca.Scope.Machine.{MachineScope, name}
use cluster_api_provider_sca.Service.Balancer.Acls.{differs}
use cluster_api_provider_sca.Service.Balancer.Members.{
  control_plane_backend_name, control_plane_frontend_name,
}

pub record MachineIps : Type 0 where
  pub internal : Option String
  pub external : Option String

-- `NodeIP`: it follows a nil pointer where the machine has no address.
abbrev external_or_panic : Option String → Result String
external_or_panic (some ip) = ok ip
external_or_panic none = panicked

abbrev internal_or : Option String → Result String → Result String
internal_or (some ip) other = ok ip
internal_or none other = other

unfoldable pub node_ip : MachineIps → Result String
node_ip ips = internal_or ips.internal (external_or_panic ips.external)

-- A missing address has an error of its own.
abbrev private_ip_error : Bool → Error → Result String
private_ip_error true e = err private_ip_not_found
private_ip_error false e = err e

abbrev private_ip_result : Result String → Result String
private_ip_result (ok ip) = ok ip
private_ip_result (err e) = private_ip_error (is_no_item_found e) e
private_ip_result panicked = panicked

abbrev check_ips : MachineIps → Result MachineIps
check_ips ips = elim ips.external [
  | some ip ↦ ok ips
  | none ↦ elim ips.internal [ some ip ↦ ok ips | none ↦ err machine_has_no_ip ]
]

module _ (m : MachineScope) where
  internal_ip_of : Option PrivateNic → Io (Option String)
  internal_ip_of none = pure none
  internal_ip_of (some nic) = do
    ip ←
        wrapping (find_ipv4_by_instance_private_nic_id m.client (region m.cluster) nic.id)
          private_ip_result
    pure (some ip)

  abbrev external_ip_of : Server → Option String
  external_ip_of server = elim server.public_ip [ none ↦ none | some ip ↦ some ip.address ]

  -- `getMachineIPs`
  unfoldable pub get_machine_ips : Server → Option PrivateNic → Io MachineIps
  unfolding internal_ip_of
  get_machine_ips server nic = do
    internal ← internal_ip_of nic
    lift (check_ips (record { internal = internal; external = external_ip_of server }))

  delete_acl_if_found : Option Acl → Io (Unit {0})
  delete_acl_if_found none = pure tt
  delete_acl_if_found (some acl) =
      wrapping (ask (balancer_api (delete_acl (load_balancer_zone m.cluster) acl.id)))
        (wrapped "failed to delete load balancer ACL")

  -- The ACL of a machine allows its public address.
  write_acl : Frontend → String → Option Acl → Io (Unit {0})
  unfolding differs
  write_acl frontend ip none = ask (
      balancer_api (
        create_acl (record {
          zone = load_balancer_zone m.cluster;
          frontend = frontend.id;
          name = name m;
          index = 3;
          action = allow;
          subnets = ip ∷ [];
        })))
  write_acl frontend ip (some acl) =
      if differs (ip ∷ []) acl.subnets
      then ask (
          balancer_api (
            update_acl (record {
              zone = load_balancer_zone m.cluster;
              acl = acl.id;
              name = name m;
              index = 3;
              action = allow;
              subnets = ip ∷ [];
            })))
      else pure tt

  set_acl : Frontend → Option String → Option Acl → Io (Unit {0})
  unfolding delete_acl_if_found write_acl
  set_acl frontend none acl = delete_acl_if_found acl
  set_acl frontend (some ip) acl = write_acl frontend ip acl

  -- `ensureLoadBalancerACL`
  unfoldable pub ensure_load_balancer_acl : Option String → Io (Unit {0})
  unfolding set_acl
  ensure_load_balancer_acl public_ip = do
    frontend ←
        wrapping
          (find_load_balancer_frontend_by_names (load_balancer_zone m.cluster)
            (Cluster.name m.cluster) control_plane_frontend_name)
          (wrapped "failed to find load balancer frontend")
    acl ←
        wrapping
          (or_nil
            (find_load_balancer_acl_by_name (load_balancer_zone m.cluster) frontend.id (name m)))
          (wrapped "failed to find load balancer ACL")
    set_acl frontend public_ip acl

  -- The switch on the deletion and the pool, with the node's address.
  update_pool : Backend → String → Bool → Io (Unit {0})
  update_pool backend ip true =
      if contains backend.pool ip
      then ask (
          balancer_api (remove_backend_servers (load_balancer_zone m.cluster) backend.id (ip ∷ [])))
      else pure tt
  update_pool backend ip false =
      if contains backend.pool ip
      then pure tt
      else ask
          (balancer_api (add_backend_servers (load_balancer_zone m.cluster) backend.id (ip ∷ [])))

  -- `ensureControlPlaneLoadBalancer`
  unfoldable pub ensure_control_plane_load_balancer : MachineIps → Bool → Io (Unit {0})
  unfolding update_pool
  ensure_control_plane_load_balancer ips deletion =
      if m.machine.control_plane
      then (do
        backend ←
            wrapping
              (find_load_balancer_backend_by_names (load_balancer_zone m.cluster)
                (Cluster.name m.cluster) control_plane_backend_name)
              (wrapped "failed to find load balancer backend")
        ip ← lift (node_ip ips)
        update_pool backend ip deletion)
      else pure tt
