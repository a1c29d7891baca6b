-- ===== src/Sdk.antt =====
-- The functions of libraries that compute without a call to the outside: those of the Scaleway SDK
-- on regions and zones, of Go's net, netip and text/template packages, of google/uuid, and of the
-- Cluster API on annotations. They are a parameter of what uses them.
pub mod Plain
use cluster_api_provider_sca.Prelude.{ℕ, String, Bool, List}
use cluster_api_provider_sca.Result.{Result}
use cluster_api_provider_sca.Api.Cluster.{ObjectMeta}
use cluster_api_provider_sca.Api.Machine.{OwnerCluster}

-- `parse_cidr` gives the text of the network, `execute_template` the bootstrap data with a node IP and a
-- provider ID put in; `gigabyte` is `scw.GB`.
pub record Sdk : Type 0 where
  pub get_zones : String → List String
  pub instance_zones : List String
  pub gateway_zones : List String
  pub parse_region : String → Result String
  pub parse_zone : String → Result String
  pub zone_region : String → Result String
  pub parse_cidr : String → Result String
  pub parse_addr_is4 : String → Result Bool
  pub uuid_is_valid : String → Bool
  pub parse_template : String → Result String
  pub execute_template : String → String → String → Result String
  pub gigabyte : ℕ
  pub is_paused : OwnerCluster → ObjectMeta → Bool
