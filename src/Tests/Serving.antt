-- ===== src/Tests/Serving.antt =====
-- APIs that answer every call: nothing is listed, and everything that is made works.
use cluster_api_provider_sca.Prelude.{true, false, none, some, [], ◌∷◌}
use cluster_api_provider_sca.Result.{ok}
use cluster_api_provider_sca.Cloud.{
  Request, Answer, instance_api, balancer_api, network_api, kube_api,
}
use cluster_api_provider_sca.Cloud.Instance.{
  InstanceRequest, InstanceAnswer, list_servers, list_ips, create_ip, create_server,
  list_private_nics, create_private_nic, get_user_data, list_groups_by_name, list_groups_by_tags,
  create_group, list_rules, get_local_image, accept,
}
use cluster_api_provider_sca.Cloud.Balancer.{
  BalancerRequest, BalancerAnswer, in_status, list_balancers, create_balancer, list_balancer_ips,
  list_balancer_networks, list_backends, create_backend, list_frontends, create_frontend, list_acls,
}
use cluster_api_provider_sca.Cloud.Network.{
  NetworkRequest, NetworkAnswer, list_private_networks, create_private_network,
  list_gateways_by_name, list_gateways_by_network, create_gateway, list_free_gateway_ips,
  list_gateway_ips_by_tags, create_gateway_ip, list_gateway_networks, list_nic_ips,
}
use cluster_api_provider_sca.Cloud.Kube.{
  KubeRequest, KubeAnswer, get_scaleway_cluster, get_scaleway_machine, get_owner_cluster,
  get_owner_machine, get_cluster_from_metadata, get_secret, set_owner_reference, new_client,
}
use cluster_api_provider_sca.Prog.{Handler}
use cluster_api_provider_sca.Tests.Fixtures.{cluster, machine, server}

abbrev instance_answer : (q : InstanceRequest) → InstanceAnswer q
instance_answer (list_servers zone name) = []
instance_answer (list_ips zone tags) = []
instance_answer (create_ip zone tags) = record { id = "ip"; address = "1.2.3.4"; dynamic = false }
instance_answer (create_server request) = server
instance_answer (list_private_nics zone id) = []
instance_answer (create_private_nic zone id pn) = record { id = "nic"; private_network_id = pn }
instance_answer (get_user_data zone id) = []
instance_answer (list_groups_by_name zone name) = []
instance_answer (list_groups_by_tags zones tags) = []
instance_answer (create_group request) = record {
  id = "group";
  name = request.name;
  zone = request.zone;
  inbound_default_policy = accept;
  outbound_default_policy = accept;
  enable_default_security = false;
}
instance_answer (list_rules zone group) = []
instance_answer (get_local_image commercial_type zone label) = "image"
instance_answer _ = tt

abbrev balancer_answer : (q : BalancerRequest) → BalancerAnswer q
balancer_answer (list_balancers zone name) = []
balancer_answer (create_balancer request) = record {
  id = "lb";
  name = request.name;
  zone = request.zone;
  status = in_status "creating";
  ips = "10.0.0.1" ∷ [];
}
balancer_answer (list_balancer_ips zone address project) = []
balancer_answer (list_balancer_networks zone balancer) = []
balancer_answer (list_backends zone balancer name) = []
balancer_answer (create_backend request) = record { id = "backend"; name = request.name; pool = [] }
balancer_answer (list_frontends zone balancer name) = []
balancer_answer (create_frontend request) = record {
  id = "frontend";
  name = request.name;
  inbound_port = request.inbound_port;
}
balancer_answer (list_acls zone frontend name) = []
balancer_answer _ = tt

abbrev network_answer : (q : NetworkRequest) → NetworkAnswer q
network_answer (list_private_networks region name project) = []
network_answer (create_private_network region name subnets) = record {
  id = "pn";
  name = name;
  dhcp_enabled = true;
}
network_answer (list_gateways_by_name zone name project) = []
network_answer (list_gateways_by_network zones pn) = []
network_answer (create_gateway request) = record { id = "gw"; name = request.name; ip = none }
network_answer (list_free_gateway_ips zone project) = []
network_answer (list_gateway_ips_by_tags zone tags project) = []
network_answer (create_gateway_ip zone tags) = record { id = "gw-ip"; address = "5.6.7.8" }
network_answer (list_gateway_networks zone gateway pn) = 0
network_answer (list_nic_ips region project nic) = "10.0.0.2" ∷ []
network_answer _ = tt

abbrev kube_answer : (q : KubeRequest) → KubeAnswer q
kube_answer (get_scaleway_cluster namespace name) = cluster
kube_answer (get_scaleway_machine namespace name) = machine.scaleway_machine
kube_answer (get_owner_cluster child) = some machine.owner
kube_answer (get_owner_machine child) = some machine.machine
kube_answer (get_cluster_from_metadata child) = machine.owner
kube_answer (get_secret namespace name) = record {
  name = name;
  owners = [];
  controller = none;
  entries = [];
}
kube_answer (set_owner_reference c secret) = secret
kube_answer (new_client options) = some "project"
kube_answer _ = tt

abbrev answer : (q : Request) → Answer q
answer (instance_api q) = instance_answer q
answer (balancer_api q) = balancer_answer q
answer (network_api q) = network_answer q
answer (kube_api q) = kube_answer q

abbrev pub serving : Handler (Unit {0})
serving q s = (ok (answer q), s)
