-- ===== src/Api/Cluster.antt =====
-- ScalewayCluster of api/v1beta1/scalewaycluster_types.go, with the object metadata and the
-- endpoint that the code uses of the Kubernetes and Cluster API libraries.
use cluster_api_provider_sca.Prelude.{ℕ, String, Bool, Option, List}
use cluster_api_provider_sca.Api.Group.{SecurityGroup}

-- `deleting` is a deletion timestamp that is not zero.
pub record ObjectMeta : Type 0 where
  pub name : String
  pub namespace : String
  pub uid : String
  pub finalizers : List String
  pub annotations : List String
  pub deleting : Bool

pub record Endpoint : Type 0 where
  pub host : String
  pub port : ℕ

pub record PrivateNetworkSpec : Type 0 where
  pub enabled : Bool
  pub id : Option String
  pub subnet : Option String

pub record PublicGatewaySpec : Type 0 where
  pub enabled : Bool
  pub id : Option String
  pub type : Option String
  pub ip : Option String
  pub zone : Option String

pub record NetworkSpec : Type 0 where
  pub private_network : Option PrivateNetworkSpec
  pub public_gateway : Option PublicGatewaySpec
  pub security_groups : List SecurityGroup

pub record LoadBalancerSpec : Type 0 where
  pub zone : Option String
  pub type : Option String
  pub ip : Option String
  pub allowed_ranges : List String

pub record ScalewayClusterSpec : Type 0 where
  pub control_plane_endpoint : Endpoint
  pub failure_domains : List String
  pub region : String
  pub network : Option NetworkSpec
  pub control_plane_load_balancer : Option LoadBalancerSpec
  pub scaleway_secret_name : String

pub record NetworkStatus : Type 0 where
  pub private_network_id : Option String
  pub public_gateway_id : Option String

-- `failure_domains` are the keys of the map: every value of it is a control plane domain.
pub record ScalewayClusterStatus : Type 0 where
  pub ready : Bool
  pub failure_domains : List String
  pub network : Option NetworkStatus

pub record ScalewayCluster : Type 0 where
  pub meta : ObjectMeta
  pub spec : ScalewayClusterSpec
  pub status : ScalewayClusterStatus

abbrev pub cluster_finalizer : String
cluster_finalizer = "scalewaycluster.infrastructure.cluster.x-k8s.io"
