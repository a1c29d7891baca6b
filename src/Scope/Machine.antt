-- ===== src/Scope/Machine.antt =====
-- internal/scope/machine.go
use cluster_api_provider_sca.Prelude.{
  String, ◌<>◌, Bool, false, Option, none, some, List, [], ◌∷◌, ◌==◌, if◌then◌else◌,
}
use cluster_api_provider_sca.Result.{Result, ok, err, other, bootstrap_data_not_ready, wrapped}
use cluster_api_provider_sca.Client.{Client}
use cluster_api_provider_sca.Cloud.{kube_api}
use cluster_api_provider_sca.Cloud.Kube.{get_secret, new_patch_helper, patch_machine}
use cluster_api_provider_sca.Prog.{Io, ret, ask, pure, lift, wrapping, ◌>>=◌, ◌>>◌}
use cluster_api_provider_sca.Api.Cluster.{ScalewayCluster}
use cluster_api_provider_sca.Api.Machine.{ScalewayMachine, Machine, OwnerCluster}
use cluster_api_provider_sca.Scope.Cluster.{region, new_cluster}

-- The scope of a machine, the embedded cluster scope included.
pub record MachineScope : Type 0 where
  pub client : Client
  pub cluster : ScalewayCluster
  pub owner : OwnerCluster
  pub scaleway_machine : ScalewayMachine
  pub machine : Machine

-- `NewMachine`: the helper of the machine replaces that of the cluster.
unfoldable pub new_machine :
    Client → ScalewayCluster → OwnerCluster → ScalewayMachine → Machine → Io MachineScope
unfolding new_cluster
new_machine client cluster owner scaleway_machine machine = do
  scope ← new_cluster client cluster
  wrapping (ask (kube_api (new_patch_helper scaleway_machine.meta)))
      (wrapped "failed to init patch helper")
  pure (record {
    client = scope.client;
    cluster = scope.cluster;
    owner = owner;
    scaleway_machine = scaleway_machine;
    machine = machine;
  })

-- `PatchObject`, which `Close` calls too.
unfoldable pub patch_object : ScalewayMachine → Io (Unit {0})
patch_object m = ask (kube_api (patch_machine m))

abbrev pub lookup {ℓ} : {V : Type ℓ} → String → List (String × V) → Option V
lookup k [] = none
lookup k ((j, v) ∷ m) = if j == k then some v else lookup k m

abbrev value_of_secret : Option String → Result String
value_of_secret none = err (other "error retrieving bootstrap data: secret value key is missing")
value_of_secret (some value) = ok value

-- `GetRawBootstrapData`
unfoldable pub get_raw_bootstrap_data : MachineScope → Io String
get_raw_bootstrap_data m = elim m.machine.data_secret_name [
  | none ↦ ret (err bootstrap_data_not_ready)
  | some secret_name ↦ do
    secret ← ask (kube_api (get_secret m.machine.meta.namespace secret_name))
    lift (value_of_secret (lookup "value" secret.entries))
]

-- `NeedsPublicIP`
unfoldable pub needs_public_ip : MachineScope → Bool
needs_public_ip m = elim m.scaleway_machine.spec.public_ip [ none ↦ false | some b ↦ b ]

-- `Tags`
unfoldable pub tags : MachineScope → List String
tags m =
    ("caps-cluster=" <> m.cluster.meta.name) ∷ ("caps-node=" <> m.scaleway_machine.meta.name) ∷ []

-- `Zone`
unfoldable pub zone : MachineScope → String
unfolding region
zone m = elim m.machine.failure_domain [ none ↦ region m.cluster <> "-1" | some z ↦ z ]

-- `Name`
unfoldable pub name : MachineScope → String
name m = "caps-" <> m.scaleway_machine.meta.name

-- `ProviderID`
unfoldable pub provider_id : MachineScope → String → String
unfolding zone
provider_id m server = "scaleway://instance/" <> zone m <> "/" <> server
