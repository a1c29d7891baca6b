-- ===== src/Cloud/Network.antt =====
-- The calls of the Scaleway VPC, Public Gateway and IPAM APIs that internal/service/scaleway makes.
use cluster_api_provider_sca.Prelude.{ℕ, String, Bool, true, false, Option, List}

pub record PrivateNetwork : Type 0 where
  pub id : String
  pub name : String
  pub dhcp_enabled : Bool

pub record GatewayIp : Type 0 where
  pub id : String
  pub address : String

pub record Gateway : Type 0 where
  pub id : String
  pub name : String
  pub ip : Option GatewayIp

pub record CreateGateway : Type 0 where
  pub zone : String
  pub name : String
  pub ip_id : String
  pub type : String

pub record CreateGatewayNetwork : Type 0 where
  pub zone : String
  pub gateway : String
  pub private_network : String
  pub enable_dhcp : Bool
  pub enable_masquerade : Bool
  pub push_default_route : Bool

-- `subnets` are network texts. The answer of `list_gateway_networks` is its `TotalCount`, and that
-- of `list_nic_ips` the addresses.
pub data NetworkRequest : Type 0 where
  list_private_networks : (region name project : String) → NetworkRequest
  create_private_network : (region name : String) (subnets : List String) → NetworkRequest
  delete_private_network : (region private_network : String) → NetworkRequest
  list_gateways_by_name : (zone name project : String) → NetworkRequest
  list_gateways_by_network : (zones : List String) (private_network : String) → NetworkRequest
  create_gateway : CreateGateway → NetworkRequest
  delete_gateway : (zone gateway : String) → NetworkRequest
  list_free_gateway_ips : (zone project : String) → NetworkRequest
  list_gateway_ips_by_tags :
      (zone : String) (tags : List String) (project : String) → NetworkRequest
  create_gateway_ip : (zone : String) (tags : List String) → NetworkRequest
  delete_gateway_ip : (zone ip : String) → NetworkRequest
  list_gateway_networks : (zone gateway private_network : String) → NetworkRequest
  create_gateway_network : CreateGatewayNetwork → NetworkRequest
  list_nic_ips : (region project private_nic : String) → NetworkRequest

abbrev pub NetworkAnswer : NetworkRequest → Type 0
NetworkAnswer (list_private_networks region name project) = List PrivateNetwork
NetworkAnswer (create_private_network region name subnets) = PrivateNetwork
NetworkAnswer (list_gateways_by_name zone name project) = List Gateway
NetworkAnswer (list_gateways_by_network zones private_network) = List Gateway
NetworkAnswer (create_gateway request) = Gateway
NetworkAnswer (list_free_gateway_ips zone project) = List GatewayIp
NetworkAnswer (list_gateway_ips_by_tags zone tags project) = List GatewayIp
NetworkAnswer (create_gateway_ip zone tags) = GatewayIp
NetworkAnswer (list_gateway_networks zone gateway private_network) = ℕ
NetworkAnswer (list_nic_ips region project private_nic) = List String
NetworkAnswer _ = Unit

-- The calls that change nothing.
abbrev pub reads_network : NetworkRequest → Bool
reads_network (list_private_networks region name project) = true
reads_network (list_gateways_by_name zone name project) = true
reads_network (list_gateways_by_network zones private_network) = true
reads_network (list_free_gateway_ips zone project) = true
reads_network (list_gateway_ips_by_tags zone tags project) = true
reads_network (list_gateway_networks zone gateway private_network) = true
reads_network (list_nic_ips region project private_nic) = true
reads_network _ = false
