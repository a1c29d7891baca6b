-- ===== src/Client/Instance.antt =====
-- internal/service/scaleway/client/instance.go
use cluster_api_provider_sca.Prelude.{String, List, ◌==◌}
use cluster_api_provider_sca.Result.{wrapped}
use cluster_api_provider_sca.Cloud.{instance_api}
use cluster_api_provider_sca.Cloud.Instance.{
  Server, InstanceIp, PrivateNic, InstanceGroup, list_servers, list_ips, list_private_nics,
  list_groups_by_name,
}
use cluster_api_provider_sca.Prog.{Io, ask, lift, wrapping, ◌>>=◌}
use cluster_api_provider_sca.Client.Search.{first_item, only_item}

unfoldable pub find_instance_by_name : String → String → Io Server
find_instance_by_name zone name = do
  servers ←
      wrapping (ask (instance_api (list_servers zone name))) (wrapped "failed to list servers")
  lift (first_item (λ server. server.name == name) servers)

unfoldable pub find_ip_by_tags : String → List String → Io InstanceIp
find_ip_by_tags zone tags = do
  ips ← wrapping (ask (instance_api (list_ips zone tags))) (wrapped "failed to list IPs")
  lift (only_item ips)

unfoldable pub find_private_nic_by_pn_id : Server → String → Io PrivateNic
find_private_nic_by_pn_id server pn_id = do
  nics ← ask (instance_api (list_private_nics server.zone server.id))
  lift (first_item (λ nic. nic.private_network_id == pn_id) nics)

unfoldable pub find_security_group_by_name : String → String → Io InstanceGroup
find_security_group_by_name zone name = do
  groups ← ask (instance_api (list_groups_by_name zone name))
  lift (first_item (λ group. group.name == name) groups)
