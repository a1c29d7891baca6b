-- ===== src/Cloud/Kube.antt =====
-- The calls of the Kubernetes API and of the Cluster API libraries that internal/controller and
-- internal/scope make.
use cluster_api_provider_sca.Prelude.{String, Bool, true, false, Option, List}
use cluster_api_provider_sca.Api.Cluster.{ObjectMeta, ScalewayCluster}
use cluster_api_provider_sca.Api.Machine.{ScalewayMachine, Machine, OwnerCluster}

-- `owners` are the UIDs of the owner references, `controller` that of the controlling owner.
pub record Secret : Type 0 where
  pub name : String
  pub owners : List String
  pub controller : Option String
  pub entries : List (String × String)

-- What `scw.NewClient` is given.
pub record ClientOptions : Type 0 where
  pub access_key : String
  pub secret_key : String
  pub project_id : String
  pub api_url : Option String

-- `set_owner_reference` answers with the secret that `controllerutil.SetOwnerReference` leaves,
-- `new_client` with the default project of the client, where it has one.
pub data KubeRequest : Type 0 where
  get_scaleway_cluster : (namespace name : String) → KubeRequest
  get_scaleway_machine : (namespace name : String) → KubeRequest
  get_owner_cluster : ObjectMeta → KubeRequest
  get_owner_machine : ObjectMeta → KubeRequest
  get_cluster_from_metadata : ObjectMeta → KubeRequest
  get_secret : (namespace name : String) → KubeRequest
  set_owner_reference : ScalewayCluster → Secret → KubeRequest
  update_secret : Secret → KubeRequest
  new_client : ClientOptions → KubeRequest
  new_patch_helper : ObjectMeta → KubeRequest
  patch_cluster : ScalewayCluster → KubeRequest
  patch_machine : ScalewayMachine → KubeRequest

abbrev pub KubeAnswer : KubeRequest → Type 0
KubeAnswer (get_scaleway_cluster namespace name) = ScalewayCluster
KubeAnswer (get_scaleway_machine namespace name) = ScalewayMachine
KubeAnswer (get_owner_cluster meta) = Option OwnerCluster
KubeAnswer (get_owner_machine meta) = Option Machine
KubeAnswer (get_cluster_from_metadata meta) = OwnerCluster
KubeAnswer (get_secret namespace name) = Secret
KubeAnswer (set_owner_reference cluster secret) = Secret
KubeAnswer (new_client options) = Option String
KubeAnswer _ = Unit

-- The calls that change nothing outside.
abbrev pub reads_kube : KubeRequest → Bool
reads_kube (update_secret secret) = false
reads_kube (patch_cluster cluster) = false
reads_kube (patch_machine machine) = false
reads_kube _ = true
