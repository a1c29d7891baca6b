-- ===== src/Webhook/Cluster.antt =====
-- `validate`, `ValidateCreate` and `ValidateUpdate` of api/v1beta1/scalewaycluster_webhook.go.
pub mod Laws
pub mod Update
use cluster_api_provider_sca.Prelude.{
  ℕ, ◌+◌, String, Bool, true, false, Option, none, some, List, [], ◌∷◌, ◌==◌, contains_func,
  if◌then◌else◌,
}
use cluster_api_provider_sca.Result.{Result, ok, err, panicked, ◌>>=◌}
use cluster_api_provider_sca.Sdk.{Sdk}
use cluster_api_provider_sca.Api.Cluster.{ScalewayCluster, LoadBalancerSpec}
use cluster_api_provider_sca.Webhook.Field.{
  Segment, child, index, FieldError, invalid, duplicate, Admission, admitted, rejected,
  append_error, admission_of,
}
use cluster_api_provider_sca.Webhook.Network.{
  Check, passes, fails, ◌then_check◌, zone_in_region, validate_network_spec,
}
use cluster_api_provider_sca.Webhook.Immutable.{enforce_immutability}

-- The loop of `validateFailureDomains`, with the zones met before.
unfoldable pub validate_domains : Sdk → String → ℕ → List String → List String → Check
validate_domains sdk region i [] zones = passes
validate_domains sdk region i (fd ∷ fds) zones =
    let path = child "spec" ∷ child "failureDomains" ∷ index i ∷ [] in
    let rest = λ (zone : String). validate_domains sdk region (i + 1) fds (zone ∷ zones) in
    elim (sdk.parse_zone fd) [
      | err e ↦ fails path "invalid zone"
      | panicked ↦ panicked
      | ok zone ↦ elim (sdk.zone_region zone) [
        | err e ↦ fails path "zone without a region"
        | panicked ↦ panicked
        | ok r ↦
            if region == r
            then (if contains_func (λ z. z == zone) zones
                then ok (some (duplicate path))
                else rest zone)
            else fails path "failureDomain must be in the cluster region"
      ]
    ]

-- `validateFailureDomains`
unfoldable pub validate_failure_domains : Sdk → String → List String → Check
unfolding validate_domains
validate_failure_domains sdk region fds = validate_domains sdk region 0 fds []

-- `validateLoadBalancerSpec`
unfoldable pub validate_load_balancer_spec : Sdk → String → Option LoadBalancerSpec → Check
validate_load_balancer_spec sdk region none = passes
validate_load_balancer_spec sdk region (some b) = elim b.zone [
  | none ↦ passes
  | some zone ↦
      zone_in_region sdk region zone
        (child "spec" ∷ child "controlPlaneLoadBalancer" ∷ child "zone" ∷ [])
        "loadbalancer zone must be in the cluster region"
]

abbrev pub kind : String
kind = "ScalewayCluster"

-- The checks after that of the region. All of them run, and their errors are collected.
unfoldable pub validate_in : Sdk → ScalewayCluster → String → Result Admission
validate_in sdk c region = do
  domains ← validate_failure_domains sdk region c.spec.failure_domains
  balancer ← validate_load_balancer_spec sdk region c.spec.control_plane_load_balancer
  network ← validate_network_spec sdk region c.spec.network
  ok (
      admission_of kind c.meta.name
        (append_error (append_error (append_error [] domains) balancer) network))

-- `validate`
unfoldable pub validate : Sdk → ScalewayCluster → Result Admission
unfolding validate_in
validate sdk c = elim (sdk.parse_region c.spec.region) [
  | ok region ↦ validate_in sdk c region
  | err e ↦ ok (
      rejected kind c.meta.name
        (invalid (child "spec" ∷ child "region" ∷ []) "invalid region" ∷ []))
  | panicked ↦ panicked
]

-- `ValidateCreate`
unfoldable pub validate_create : Sdk → ScalewayCluster → Result Admission
unfolding validate
validate_create sdk c = validate sdk c

abbrev if_admitted : Admission → Result Admission → Result Admission
if_admitted admitted rest = rest
if_admitted (rejected k n errors) rest = ok (rejected k n errors)

-- `ValidateUpdate`: `validate` runs on the object that `enforceImmutability` leaves.
unfoldable pub validate_update : Sdk → ScalewayCluster → ScalewayCluster → Result Admission
unfolding validate
validate_update sdk c old =
    let (admission, c', old') = enforce_immutability c old in
    if_admitted admission (validate sdk c')

-- `ValidateDelete`
unfoldable pub validate_delete : ScalewayCluster → Result Admission
validate_delete c = ok admitted
