-- ===== src/Webhook/Immutable.antt =====
-- `enforceImmutability` of api/v1beta1/scalewaycluster_webhook.go.
pub mod Laws
use cluster_api_provider_sca.Prelude.{
  String, Bool, true, false, ◌&&◌, not, Option, none, some, List, [], ◌∷◌, ◌==◌, option_eq, bool_eq,
}
use cluster_api_provider_sca.Api.Cluster.{
  ScalewayCluster, NetworkSpec, PrivateNetworkSpec, PublicGatewaySpec, LoadBalancerSpec,
}
use cluster_api_provider_sca.Webhook.Field.{
  Segment, child, FieldError, invalid, Admission, append_error, error_when, admission_of,
}

abbrev pub str_eq : String → String → Bool
str_eq a b = a == b

-- `reflect.DeepEqual` on the two kinds of structs
abbrev pub private_network_eq : PrivateNetworkSpec → PrivateNetworkSpec → Bool
private_network_eq a b =
    bool_eq a.enabled b.enabled && option_eq str_eq a.id b.id && option_eq str_eq a.subnet b.subnet

abbrev pub public_gateway_eq : PublicGatewaySpec → PublicGatewaySpec → Bool
public_gateway_eq a b =
    bool_eq a.enabled b.enabled
    && option_eq str_eq a.id b.id
    && option_eq str_eq a.type b.type
    && option_eq str_eq a.ip b.ip
    && option_eq str_eq a.zone b.zone

abbrev pub network_or_empty : Option NetworkSpec → NetworkSpec
network_or_empty (some n) = n
network_or_empty none = record {
  private_network = none;
  public_gateway = none;
  security_groups = [];
}

abbrev pub balancer_or_empty : Option LoadBalancerSpec → LoadBalancerSpec
balancer_or_empty (some b) = b
balancer_or_empty none = record { zone = none; type = none; ip = none; allowed_ranges = [] }

-- Both objects get a network and a load balancer where they had none.
abbrev pub filled : ScalewayCluster → ScalewayCluster
filled c = record c {
  spec = record c.spec {
    network = some (network_or_empty c.spec.network);
    control_plane_load_balancer = some (balancer_or_empty c.spec.control_plane_load_balancer);
  };
}

abbrev immutable_when_same : Bool → List Segment → Option FieldError
immutable_when_same same path =
    error_when (not same) (invalid (child "spec" ∷ path) "field is immutable")

unfoldable pub immutability_errors : ScalewayCluster → ScalewayCluster → List FieldError
immutability_errors c old =
    let n = network_or_empty c.spec.network in
    let n' = network_or_empty old.spec.network in
    let b = balancer_or_empty c.spec.control_plane_load_balancer in
    let b' = balancer_or_empty old.spec.control_plane_load_balancer in
    let region_error =
      immutable_when_same (c.spec.region == old.spec.region) (child "region" ∷ []) in
    let secret_error =
      immutable_when_same (c.spec.scaleway_secret_name == old.spec.scaleway_secret_name)
        (child "scalewaySecretName" ∷ []) in
    let network_error =
      immutable_when_same (option_eq private_network_eq n.private_network n'.private_network)
        (child "network" ∷ child "privateNetwork" ∷ []) in
    let gateway_error =
      immutable_when_same (option_eq public_gateway_eq n.public_gateway n'.public_gateway)
        (child "network" ∷ child "publicGateway" ∷ []) in
    let zone_error =
      immutable_when_same (option_eq str_eq b'.zone b.zone)
        (child "controlPlaneLoadBalancer" ∷ child "zone" ∷ []) in
    let ip_error =
      immutable_when_same (option_eq str_eq b'.ip b.ip)
        (child "controlPlaneLoadBalancer" ∷ child "ip" ∷ []) in
    append_error
      (append_error
        (append_error
          (append_error (append_error (append_error [] region_error) secret_error) network_error)
          gateway_error)
        zone_error)
      ip_error

-- `enforceImmutability`, with the two objects as it leaves them.
unfoldable pub enforce_immutability :
    ScalewayCluster → ScalewayCluster → Admission × ScalewayCluster × ScalewayCluster
unfolding immutability_errors
enforce_immutability c old =
    (admission_of "ScalewayCluster" c.meta.name (immutability_errors c old), filled c, filled old)
