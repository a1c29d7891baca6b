-- ===== src/Service/Instance/Create/Safe.antt =====
-- Panics of making the address, the server and the interface,
-- internal/service/scaleway/instance/instance.go.
use cluster_api_provider_sca.Prelude.{Option, some, none, arith, String}
use cluster_api_provider_sca.Result.{Result}
use cluster_api_provider_sca.Sdk.{Sdk}
use cluster_api_provider_sca.Cloud.Instance.{InstanceIp, Server}
use cluster_api_provider_sca.Prog.{Handler}
use cluster_api_provider_sca.Prog.Laws.{result-bind}
use cluster_api_provider_sca.Prog.Runs.{Runs, AnyError, Any, Meets, IsCalm}
use cluster_api_provider_sca.Client.Instance.{
  find_instance_by_name, find_ip_by_tags, find_private_nic_by_pn_id, find_security_group_by_name,
}
use cluster_api_provider_sca.Api.Machine.{ScalewayMachineSpec, scaleway_root_volume_type}
use cluster_api_provider_sca.Scope.Machine.{MachineScope}
use cluster_api_provider_sca.Service.Vpc.Safe.{IsStored, stored_id}
use cluster_api_provider_sca.Service.Instance.Create.{
  create_ip_if_nil, get_or_create_ip, image_id, group_id, create_server_if_nil,
  get_or_create_server, create_nic_if_nil, get_or_create_private_nic,
}

volume-plain : (spec : ScalewayMachineSpec) → Meets AnyError Any (scaleway_root_volume_type spec)
unfolding scaleway_root_volume_type
volume-plain spec = grind (arith)

module _ {S : Type 0} (h : Handler S) (calm : IsCalm h) (m : MachineScope) where
  pub ip-Runs : Runs h AnyError Any (get_or_create_ip m)
  unfolding get_or_create_ip create_ip_if_nil find_ip_by_tags
  ip-Runs s = grind (arith, calm)

  image-Runs : (sdk : Sdk) → Runs h AnyError Any (image_id m sdk)
  unfolding image_id
  image-Runs sdk s = grind (arith, calm)

  group-Runs : (group : Option String) → Runs h AnyError Any (group_id m group)
  unfolding group_id find_security_group_by_name
  group-Runs none s = tt
  group-Runs (some group) s = grind (arith, calm)

  pub nic-Runs :
      IsStored m.cluster
      → (server : Server) → Runs h AnyError Any (get_or_create_private_nic m server)
  unfolding get_or_create_private_nic create_nic_if_nil find_private_nic_by_pn_id
  nic-Runs stored server s = let id = stored_id m.cluster stored in grind (arith, calm, id)

  pub server-Runs :
      (sdk : Sdk) (ip : Option InstanceIp) → Runs h AnyError Any (get_or_create_server m sdk ip)
  unfolding get_or_create_server find_instance_by_name create_server_if_nil image_id
  server-Runs sdk ip s =
      let volume = volume-plain m.scaleway_machine.spec in
      let group = group-Runs m.scaleway_machine.spec.security_group_name in
      let whole =
        result-bind {B = Result Server} h
          (group_id m m.scaleway_machine.spec.security_group_name) in
      grind (arith, calm, volume, group, whole)
