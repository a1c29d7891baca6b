-- ===== src/Tests/Webhooks.antt =====
-- Runs of the webhooks.
use cluster_api_provider_sca.Prelude.{◌≡◌, ◌↔◌, refl, String, some, none, [], ◌∷◌, All}
use cluster_api_provider_sca.Result.{ok}
use cluster_api_provider_sca.Webhook.Field.{admitted}
use cluster_api_provider_sca.Webhook.Network.{
  passes, validate_groups, validate_gateway, validate_network_spec,
}
use cluster_api_provider_sca.Webhook.Network.Laws.{IsSound, AreFresh, validate_gateway-passes}
use cluster_api_provider_sca.Webhook.Network.Rules.{IsSoundGroup, validate_groups-passes}
use cluster_api_provider_sca.Webhook.Cluster.Update.{update-admitted}
use cluster_api_provider_sca.Api.Group.{SecurityGroup}
use cluster_api_provider_sca.Webhook.Cluster as Clusters
use cluster_api_provider_sca.Webhook.Cluster.Laws.{AreDomains, validate_create-admitted}
use cluster_api_provider_sca.Webhook.Immutable.Laws.{IsUnchanged}
use cluster_api_provider_sca.Webhook.Machine as Machines
use cluster_api_provider_sca.Webhook.Machine.Laws.{
  IsAllowed, IsLargeEnough, validate_update-admitted,
}
use cluster_api_provider_sca.Tests.Fixtures.{
  libraries, cluster, gateway_spec, network_with, machine,
}

validate_gateway-passes_example :
    (validate_gateway libraries "fr-par" (network_with gateway_spec) ≡ passes)
    ↔ IsSound libraries "fr-par" gateway_spec (network_with gateway_spec).private_network
validate_gateway-passes_example =
    validate_gateway-passes libraries "fr-par" (network_with gateway_spec) {g = gateway_spec} refl

validate_create-admitted_example : (Clusters.validate_create libraries cluster ≡ ok admitted) ↔ (
    (region : String) × (libraries.parse_region cluster.spec.region ≡ ok region)
    × AreDomains libraries region cluster.spec.failure_domains []
    × (Clusters.validate_load_balancer_spec libraries region
          cluster.spec.control_plane_load_balancer
        ≡ passes)
    × (validate_network_spec libraries region cluster.spec.network ≡ passes))
validate_create-admitted_example = validate_create-admitted libraries cluster

validate_update-admitted_example :
    (Machines.validate_update machine.scaleway_machine machine.scaleway_machine ≡ admitted) ↔ (
      IsAllowed machine.scaleway_machine.spec machine.scaleway_machine.spec
      × IsLargeEnough machine.scaleway_machine.spec.root_volume_size)
validate_update-admitted_example =
    validate_update-admitted machine.scaleway_machine machine.scaleway_machine

update-admitted_example :
    (Clusters.validate_update libraries cluster cluster ≡ ok admitted)
    ↔ (IsUnchanged cluster cluster × (Clusters.validate_create libraries cluster ≡ ok admitted))
update-admitted_example = update-admitted libraries cluster cluster

abbrev group : SecurityGroup
group = record {
  name = "web";
  inbound = some (record {
    default = some "Drop";
    rules =
        record { action = "Accept"; protocol = some "TCP"; ports = some "80"; ip_range = none }
        ∷ [];
  });
  outbound = none;
}

validate_groups-passes_example :
    (validate_groups libraries 0 (group ∷ []) [] ≡ passes)
    ↔ (AreFresh (group ∷ []) [] × All (IsSoundGroup libraries) (group ∷ []))
validate_groups-passes_example = validate_groups-passes libraries 0 (group ∷ []) []
