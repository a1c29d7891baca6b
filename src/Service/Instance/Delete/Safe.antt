-- ===== src/Service/Instance/Delete/Safe.antt =====
-- Panics of `Delete` of internal/service/scaleway/instance/instance.go.
use cluster_api_provider_sca.Prelude.{
  Option, some, none, arith, String, List, [], ◌∷◌, true, false, Bool,
}
use cluster_api_provider_sca.Result.{Result, ok, err, panicked, is_machine_has_no_ip}
use cluster_api_provider_sca.Cloud.Instance.{
  Server, ServerState, stopped, in_state, Volume, PrivateNic,
}
use cluster_api_provider_sca.Prog.{Handler, or_nil, pure, wrapping, ◌>>=◌, ◌>>◌}
use cluster_api_provider_sca.Prog.Runs.{
  Runs, either, Runs-bind, Runs-map, Runs-or_nil, AnyError, Any, Meets, IsCalm,
}
use cluster_api_provider_sca.Scope.Machine.{MachineScope, zone, name}
use cluster_api_provider_sca.Client.Instance.{find_instance_by_name, find_private_nic_by_pn_id}
use cluster_api_provider_sca.Service.Vpc.Safe.{IsStored, stored_id}
use cluster_api_provider_sca.Service.Instance.Addresses.{
  MachineIps, get_machine_ips, ensure_control_plane_load_balancer, ensure_load_balancer_acl,
}
use cluster_api_provider_sca.Service.Instance.Addresses.Safe.{
  HaveNode, ips-Runs, pool-Runs, acl-Runs,
}
use cluster_api_provider_sca.Service.Instance.Delete.{
  ips_if_any, ips_error, delete_flexible_ip, detach_volumes, delete_boot_volume, delete_in, dispose,
  nic_of, leave_pool, leave_load_balancer, delete_found, delete_if_found, delete,
}

-- Addresses that were found have one for the Load Balancer.
abbrev HaveNodes : Option MachineIps → Type 0
HaveNodes none = Unit {0}
HaveNodes (some ips) = HaveNode ips

ips_if_any-HaveNodes :
    (r : Result MachineIps) → Meets AnyError HaveNode r → Meets AnyError HaveNodes (ips_if_any r)
ips_if_any-HaveNodes (ok ips) have = have
ips_if_any-HaveNodes (err e) have = go (is_machine_has_no_ip e)
  where
    go : (b : Bool) → Meets AnyError HaveNodes (ips_error b e)
    go true = tt
    go false = tt
ips_if_any-HaveNodes panicked have = have

module _ {S : Type 0} (h : Handler S) (calm : IsCalm h) (server : Server) where
  flexible-Runs : Runs h AnyError Any (delete_flexible_ip server)
  unfolding delete_flexible_ip
  flexible-Runs s = grind (arith, calm)

  detach-Runs :
      (volumes : List (String × Volume)) → Runs h AnyError Any (detach_volumes server volumes)
  unfolding detach_volumes
  detach-Runs [] s = tt
  detach-Runs ((key, volume) ∷ rest) s = let later = detach-Runs rest in grind (arith, calm, later)

  delete_in-Runs : (state : ServerState) → Runs h AnyError Any (delete_in state server)
  unfolding delete_in delete_boot_volume
  delete_in-Runs stopped s = grind (arith, calm)
  delete_in-Runs (in_state state) s = grind (arith, calm)

  pub dispose-Runs : Runs h AnyError Any (dispose server)
  unfolding dispose
  dispose-Runs =
      let last = delete_in server.state server in
      Runs-bind h AnyError Any Any (delete_flexible_ip server)
        (λ _. detach_volumes server server.volumes >> last) flexible-Runs
        (λ _ _.
          Runs-bind h AnyError Any Any (detach_volumes server server.volumes) (λ _. last)
            (detach-Runs server.volumes) (λ _ _. delete_in-Runs server.state))

module _ {S : Type 0} (h : Handler S) (calm : IsCalm h) (m : MachineScope)
    (stored : IsStored m.cluster) (server : Server) where
  nic-Runs : Runs h AnyError Any (nic_of m server)
  unfolding nic_of find_private_nic_by_pn_id
  nic-Runs s = let id = stored_id m.cluster stored in grind (arith, calm, id)

  pool_of-Runs : (ips : Option MachineIps) → HaveNodes ips → Runs h AnyError Any (leave_pool m ips)
  unfolding leave_pool
  pool_of-Runs none have = λ _. tt
  pool_of-Runs (some ips) have =
      Runs-or_nil h (ensure_control_plane_load_balancer m ips true)
        (pool-Runs h calm m ips true have)

  leave-Runs : Runs h AnyError Any (leave_load_balancer m server)
  unfolding leave_load_balancer
  leave-Runs =
      let ips = λ (nic : Option PrivateNic). wrapping (get_machine_ips m server nic) ips_if_any in
      let rest = nic_of m server >>= λ nic. ips nic >>= leave_pool m in
      either (λ p. Runs h AnyError Any p) m.machine.control_plane rest (pure none)
        (Runs-bind h AnyError Any Any (nic_of m server) (λ nic. ips nic >>= leave_pool m) nic-Runs
          (λ nic _.
            Runs-bind h AnyError HaveNodes Any (ips nic) (leave_pool m)
              (Runs-map h AnyError AnyError HaveNode HaveNodes (get_machine_ips m server nic)
                ips_if_any (ips-Runs h calm m server nic) ips_if_any-HaveNodes)
              pool_of-Runs))
        (λ _. tt)

  found-Runs : Runs h AnyError Any (delete_found m server)
  unfolding delete_found
  found-Runs =
      let rest = leave_load_balancer m server >> dispose server in
      Runs-bind h AnyError Any Any (or_nil (ensure_load_balancer_acl m none)) (λ _. rest)
        (Runs-or_nil h (ensure_load_balancer_acl m none) (acl-Runs h calm m none))
        (λ _ _.
          Runs-bind h AnyError Any Any (leave_load_balancer m server) (λ _. dispose server)
            leave-Runs (λ _ _. dispose-Runs h calm server))

module _ {S : Type 0} (h : Handler S) (calm : IsCalm h) (m : MachineScope)
    (stored : IsStored m.cluster) where
  if_found-Runs : (server : Option Server) → Runs h AnyError Any (delete_if_found m server)
  unfolding delete_if_found
  if_found-Runs none = λ _. tt
  if_found-Runs (some server) = found-Runs h calm m stored server

  find-Runs : Runs h AnyError Any (find_instance_by_name (zone m) (name m))
  unfolding find_instance_by_name
  find-Runs s = grind (arith, calm)

  pub machine_delete-Runs : Runs h AnyError Any (delete m)
  unfolding delete
  machine_delete-Runs =
      let find = find_instance_by_name (zone m) (name m) in
      Runs-bind h AnyError Any Any (or_nil find) (delete_if_found m) (Runs-or_nil h find find-Runs)
        (λ server _. if_found-Runs server)
