-- ===== src/Api/Machine.antt =====
-- ScalewayMachine of api/v1beta1/scalewaymachine_types.go, and what the code reads of the Machine
-- and the Cluster of the Cluster API.
use cluster_api_provider_sca.Prelude.{
  String, Bool, Option, none, some, List, ◌==◌, if◌then◌else◌, ℤ,
}
use cluster_api_provider_sca.Result.{Result, ok, err, other}
use cluster_api_provider_sca.Cloud.Instance.{VolumeType, l_ssd, b_ssd}
use cluster_api_provider_sca.Api.Cluster.{ObjectMeta}

pub record ScalewayMachineSpec : Type 0 where
  pub provider_id : Option String
  pub image : String
  pub type : String
  pub root_volume_size : Option ℤ
  pub root_volume_type : Option String
  pub public_ip : Option Bool
  pub security_group_name : Option String

pub data Address : Type 0 where
  external_ip : String → Address
  internal_ip : String → Address

pub record ScalewayMachineStatus : Type 0 where
  pub ready : Bool
  pub addresses : List Address

pub record ScalewayMachine : Type 0 where
  pub meta : ObjectMeta
  pub spec : ScalewayMachineSpec
  pub status : ScalewayMachineStatus

-- `control_plane` is `util.IsControlPlaneMachine`, which looks for a label.
pub record Machine : Type 0 where
  pub meta : ObjectMeta
  pub control_plane : Bool
  pub failure_domain : Option String
  pub data_secret_name : Option String

-- `infrastructure_ref` is the name in `InfrastructureRef`, an optional pointer.
pub record OwnerCluster : Type 0 where
  pub meta : ObjectMeta
  pub infrastructure_ref : Option String
  pub infrastructure_ready : Bool

abbrev pub machine_finalizer : String
machine_finalizer = "scalewaymachine.infrastructure.cluster.x-k8s.io"

-- `ScalewayRootVolumeType`
unfoldable pub scaleway_root_volume_type : ScalewayMachineSpec → Result VolumeType
scaleway_root_volume_type s = elim s.root_volume_type [
  | none ↦ ok b_ssd
  | some t ↦
      if t == "local"
      then ok l_ssd
      else if t == "block"
      then ok b_ssd
      else err (other "unsupported root volume type")
]
