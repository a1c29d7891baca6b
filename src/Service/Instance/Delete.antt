-- ===== src/Service/Instance/Delete.antt =====
-- `Delete` of the instance service.
pub mod Laws
pub mod Safe
use cluster_api_provider_sca.Prelude.{
  String, Bool, true, false, not, ◌&&◌, Option, none, some, List, [], ◌∷◌, if◌then◌else◌,
}
use cluster_api_provider_sca.Result.{
  Error, Result, ok, err, panicked, wrap, wrapped, is_machine_has_no_ip, optional,
}
use cluster_api_provider_sca.Cloud.{instance_api}
use cluster_api_provider_sca.Cloud.Instance.{
  Server, ServerState, stopped, in_state, terminate, InstanceIp, Volume, PrivateNic, delete_ip,
  detach_volume, delete_volume, delete_server, server_action,
}
use cluster_api_provider_sca.Prog.{
  Prog, Io, ret, bind, ask, pure, lift, wrapping, or_nil, ◌>>=◌, ◌>>◌,
}
use cluster_api_provider_sca.Client.Instance.{find_instance_by_name, find_private_nic_by_pn_id}
use cluster_api_provider_sca.Scope.Cluster.{has_private_network, private_network_id}
use cluster_api_provider_sca.Scope.Machine.{MachineScope, name, zone, lookup}
use cluster_api_provider_sca.Service.Instance.Addresses.{
  MachineIps, get_machine_ips, ensure_control_plane_load_balancer, ensure_load_balancer_acl,
}

abbrev ips_error : Bool → Error → Result (Option MachineIps)
ips_error true e = ok none
ips_error false e = err (wrap "failed to get machine IPs for control-plane machine" e)

-- A machine that has no address is no error.
abbrev ips_if_any : Result MachineIps → Result (Option MachineIps)
ips_if_any (ok ips) = ok (some ips)
ips_if_any (err e) = ips_error (is_machine_has_no_ip e) e
ips_if_any panicked = panicked

-- The flexible address of a server, which is deleted with it.
unfoldable pub delete_flexible_ip : Server → Io (Unit {0})
delete_flexible_ip server = elim server.public_ip [
  | none ↦ pure tt
  | some ip ↦ if ip.dynamic then pure tt else ask (instance_api (delete_ip server.zone ip.id))
]

-- The loop over the volumes, in the order that the map gives them.
unfoldable pub detach_volumes : Server → List (String × Volume) → Io (Unit {0})
detach_volumes server [] = pure tt
detach_volumes server ((key, volume) ∷ rest) = elim volume.boot [
  | true ↦ detach_volumes server rest
  | false ↦
      wrapping (ask (instance_api (detach_volume server.zone volume.id)))
        (wrapped "failed to detach volume")
      >> detach_volumes server rest
]

-- The boot volume of a stopped server, `server.Volumes["0"]`.
unfoldable pub delete_boot_volume : Server → Option Volume → Io (Unit {0})
delete_boot_volume server none = pure tt
delete_boot_volume server (some volume) =
    if volume.boot
    then (do
      wrapping (ask (instance_api (detach_volume server.zone volume.id)))
          (wrapped "failed to detach boot volume")
      wrapping (ask (instance_api (delete_volume server.zone volume.id)))
          (wrapped "failed to delete instance volume"))
    else pure tt

unfoldable pub delete_in : ServerState → Server → Io (Unit {0})
unfolding delete_boot_volume
delete_in stopped server = do
  delete_boot_volume server (lookup "0" server.volumes)
  wrapping (ask (instance_api (delete_server server.zone server.id)))
      (wrapped "failed to delete instance")
delete_in (in_state state) server =
    wrapping (ask (instance_api (server_action server.zone server.id terminate)))
      (wrapped "failed to terminate server")

-- The rest of `Delete`, after the machine has left the Load Balancer.
unfoldable pub dispose : Server → Io (Unit {0})
dispose server = do
  delete_flexible_ip server
  detach_volumes server server.volumes
  delete_in server.state server

module _ (m : MachineScope) where
  nic_of : Server → Io (Option PrivateNic)
  nic_of server =
      if has_private_network m.cluster
      then (do
        pn_id ← lift (private_network_id m.cluster)
        nic ←
            wrapping (find_private_nic_by_pn_id server pn_id)
              (wrapped "failed to find PrivateNIC by PNID")
        pure (some nic))
      else pure none

  leave_pool : Option MachineIps → Io (Option (Unit {0}))
  leave_pool none = pure none
  leave_pool (some ips) = or_nil (ensure_control_plane_load_balancer m ips true)

  -- The machine leaves the Load Balancer, if it is of the control plane.
  unfoldable pub leave_load_balancer : Server → Io (Option (Unit {0}))
  unfolding nic_of leave_pool
  leave_load_balancer server =
      if m.machine.control_plane
      then (do
        nic ← nic_of server
        ips ← wrapping (get_machine_ips m server nic) ips_if_any
        leave_pool ips)
      else pure none

  -- All of `Delete` from a server that was found.
  unfoldable pub delete_found : Server → Io (Unit {0})
  delete_found server = do
    or_nil (ensure_load_balancer_acl m none)
    leave_load_balancer server
    dispose server

  delete_if_found : Option Server → Io (Unit {0})
  delete_if_found none = pure tt
  delete_if_found (some server) = delete_found server

  -- `Delete`
  unfoldable pub delete : Io (Unit {0})
  unfolding delete_if_found
  delete = do found ← or_nil (find_instance_by_name (zone m) (name m)); delete_if_found found
