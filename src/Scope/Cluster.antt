-- ===== src/Scope/Cluster.antt =====
-- internal/scope/cluster.go
pub mod Laws
use cluster_api_provider_sca.Prelude.{
  String, ◌<>◌, Bool, ◌&&◌, ◌||◌, Option, none, some, List, [], ◌∷◌, ◌==◌, is_none, contains_func,
  if◌then◌else◌, true, false,
}
use cluster_api_provider_sca.Result.{Result, ok, err, other, ◌>>=◌ as ◌then_result◌, deref, wrapped}
use cluster_api_provider_sca.Cloud.{kube_api}
use cluster_api_provider_sca.Cloud.Kube.{new_patch_helper, patch_cluster}
use cluster_api_provider_sca.Prog.{Io, ask, pure, wrapping, ◌>>◌}
use cluster_api_provider_sca.Sdk.{Sdk}
use cluster_api_provider_sca.Client.{Client}
use cluster_api_provider_sca.Api.Cluster.{
  ScalewayCluster, PrivateNetworkSpec, PublicGatewaySpec, NetworkStatus,
}

-- The scope of a cluster: the Scaleway client and the object.
pub record Scope : Type 0 where
  pub client : Client
  pub cluster : ScalewayCluster

-- `NewCluster`: a patch helper is made of the object as it was read.
unfoldable pub new_cluster : Client → ScalewayCluster → Io Scope
new_cluster client c = do
  wrapping (ask (kube_api (new_patch_helper c.meta))) (wrapped "failed to init patch helper")
  pure (record { client = client; cluster = c })

-- `PatchObject`, which `Close` calls too.
unfoldable pub patch_object : ScalewayCluster → Io (Unit {0})
patch_object c = ask (kube_api (patch_cluster c))

abbrev pub contains : List String → String → Bool
contains xs x = contains_func (λ y. y == x) xs

abbrev pub is_empty {ℓ} : {A : Type ℓ} → List A → Bool
is_empty [] = true
is_empty (x ∷ xs) = false

-- `p != nil && p.f != nil`, for the pointer `p.f`
abbrev pub and_then {ℓ κ} : {A : Type ℓ} {B : Type κ} → Option A → (A → Option B) → Option B
and_then none f = none
and_then (some a) f = f a

abbrev pub private_network_of : ScalewayCluster → Option PrivateNetworkSpec
private_network_of c = and_then c.spec.network (λ n. n.private_network)

abbrev pub public_gateway_of : ScalewayCluster → Option PublicGatewaySpec
public_gateway_of c = and_then c.spec.network (λ n. n.public_gateway)

unfoldable pub region : ScalewayCluster → String
region c = c.spec.region

unfoldable pub default_zone : ScalewayCluster → String
default_zone c = c.spec.region <> "-1"

-- The loop of `Zones`, over the zones of the region.
pub compatible_zones : List String → List String → List String
compatible_zones compatible [] = []
compatible_zones compatible (z ∷ zs) =
    let rest = compatible_zones compatible zs in
    if contains compatible z || is_empty compatible then z ∷ rest else rest

abbrev or_default : List String → String → List String
or_default [] zone = zone ∷ []
or_default (z ∷ zs) zone = z ∷ zs

unfoldable pub zones : Sdk → ScalewayCluster → List String → List String
unfolding compatible_zones default_zone region
zones sdk c compatible =
    or_default (compatible_zones compatible (sdk.get_zones (region c))) (default_zone c)

-- A map from the zone to a constant: its keys, each once.
pub add_key : String → List String → List String
add_key k keys = if contains keys k then keys else k ∷ keys

pub add_matching : String → List String → List String → List String
unfolding add_key
add_matching zone [] keys = keys
add_matching zone (fd ∷ fds) keys =
    add_matching zone fds (if fd == zone then add_key zone keys else keys)

pub add_domains : List String → List String → List String → List String
unfolding add_matching
add_domains fds [] keys = keys
add_domains fds (zone ∷ zs) keys =
    add_domains fds zs (if is_empty fds then add_key zone keys else add_matching zone fds keys)

-- `FailureDomains`
unfoldable pub failure_domains : Sdk → ScalewayCluster → List String
unfolding add_domains zones
failure_domains sdk c = add_domains c.spec.failure_domains (zones sdk c []) []

abbrev first_domain : List String → String → String
first_domain [] zone = zone
first_domain (fd ∷ fds) zone = fd

abbrev zone_or : Option String → String → String
zone_or none zone = zone
zone_or (some z) zone = z

-- `LoadBalancerZone`
unfoldable pub load_balancer_zone : ScalewayCluster → String
unfolding default_zone
load_balancer_zone c =
    zone_or (and_then c.spec.control_plane_load_balancer (λ b. b.zone))
      (first_domain c.spec.failure_domains (default_zone c))

-- `PublicGatewayZone`
unfoldable pub public_gateway_zone : ScalewayCluster → String
unfolding default_zone
public_gateway_zone c =
    zone_or (and_then (public_gateway_of c) (λ g. g.zone))
      (first_domain c.spec.failure_domains (default_zone c))

abbrev pub default_load_balancer_type : String
default_load_balancer_type = "LB-S"

-- `LoadBalancerType`
unfoldable pub load_balancer_type : ScalewayCluster → String
load_balancer_type c =
    zone_or (and_then c.spec.control_plane_load_balancer (λ b. b.type)) default_load_balancer_type

abbrev enabled_network : Option PrivateNetworkSpec → Bool
enabled_network none = false
enabled_network (some n) = n.enabled

abbrev enabled_gateway : Option PublicGatewaySpec → Bool
enabled_gateway none = false
enabled_gateway (some g) = g.enabled

-- `HasPrivateNetwork`
unfoldable pub has_private_network : ScalewayCluster → Bool
has_private_network c = enabled_network (private_network_of c)

-- `HasPublicGateway`
unfoldable pub has_public_gateway : ScalewayCluster → Bool
has_public_gateway c = enabled_gateway (public_gateway_of c)

-- `ShouldManagePrivateNetwork`: the second test is reached only where there is a private network.
unfoldable pub should_manage_private_network : ScalewayCluster → Bool
unfolding has_private_network
should_manage_private_network c =
    has_private_network c && is_none (and_then (private_network_of c) (λ n. n.id))

-- `Name`
unfoldable pub name : ScalewayCluster → String
name c = "caps-" <> c.meta.name

abbrev id_of_status : Option String → Result String
id_of_status none = err (other "PrivateNetworkID not found in ScalewayCluster status")
id_of_status (some id) = ok id

-- `PrivateNetworkID`: the status is followed with no check that it is there.
unfoldable pub private_network_id : ScalewayCluster → Result String
unfolding has_private_network
private_network_id c =
    if has_private_network c
    then (deref c.status.network then_result λ status. id_of_status status.private_network_id)
    else err (other "cluster has no Private Network")

abbrev set_network_id : String → Option NetworkStatus → NetworkStatus
set_network_id id none = record { private_network_id = some id; public_gateway_id = none }
set_network_id id (some n) = record n { private_network_id = some id }

-- `SetStatusPrivateNetworkID`
unfoldable pub set_status_private_network_id : String → ScalewayCluster → ScalewayCluster
set_status_private_network_id id c = record c {
  status = record c.status { network = some (set_network_id id c.status.network) };
}

-- `Tags`
unfoldable pub tags : ScalewayCluster → List String
unfolding name
tags c = ("caps-cluster=" <> name c) ∷ []

-- `SecurityGroupName`
unfoldable pub security_group_name : ScalewayCluster → String → String
unfolding name
security_group_name c group = name c <> "-" <> group
