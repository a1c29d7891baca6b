-- ===== src/Client/Network.antt =====
-- internal/service/scaleway/client/vpc.go, vpcgw.go and ipam.go
use cluster_api_provider_sca.Prelude.{String, List, [], ◌∷◌, ◌==◌}
use cluster_api_provider_sca.Result.{Result, ok, err, wrapped, no_item_found}
use cluster_api_provider_sca.Cloud.{network_api}
use cluster_api_provider_sca.Cloud.Network.{
  PrivateNetwork, Gateway, GatewayIp, list_private_networks, list_gateways_by_name,
  list_gateways_by_network, list_free_gateway_ips, list_gateway_ips_by_tags, list_nic_ips,
}
use cluster_api_provider_sca.Prog.{Io, ask, lift, wrapping, ◌>>=◌}
use cluster_api_provider_sca.Client.Search.{Client, first_item, only_item}

abbrev head_or_missing : List String → Result String
head_or_missing [] = err no_item_found
head_or_missing (ip ∷ ips) = ok ip

unfoldable pub find_ipv4_by_instance_private_nic_id : Client → String → String → Io String
find_ipv4_by_instance_private_nic_id c region nic_id = do
  ips ← ask (network_api (list_nic_ips region c.project_id nic_id))
  lift (head_or_missing ips)

unfoldable pub find_private_network_by_name : Client → String → String → Io PrivateNetwork
find_private_network_by_name c region name = do
  networks ← ask (network_api (list_private_networks region name c.project_id))
  lift (first_item (λ network. network.name == name) networks)

unfoldable pub find_gateway_by_name : Client → String → String → Io Gateway
find_gateway_by_name c zone name = do
  gateways ←
      wrapping (ask (network_api (list_gateways_by_name zone name c.project_id)))
        (wrapped "failed to list Public Gateways")
  lift (first_item (λ gateway. gateway.name == name) gateways)

unfoldable pub find_gateway_ip : Client → String → String → Io GatewayIp
find_gateway_ip c zone ip = do
  ips ←
      wrapping (ask (network_api (list_free_gateway_ips zone c.project_id)))
        (wrapped "failed to list vpcgw IPs")
  lift (first_item (λ gateway_ip. gateway_ip.address == ip) ips)

unfoldable pub find_gateway_ip_by_tags : Client → String → List String → Io GatewayIp
find_gateway_ip_by_tags c zone tags = do
  ips ←
      wrapping (ask (network_api (list_gateway_ips_by_tags zone tags c.project_id)))
        (wrapped "failed to list IPs")
  lift (only_item ips)

unfoldable pub find_gateways_by_private_network_id : List String → String → Io (List Gateway)
find_gateways_by_private_network_id zones pn_id =
    wrapping (ask (network_api (list_gateways_by_network zones pn_id)))
      (wrapped "failed to list public gateways by private network ID")
