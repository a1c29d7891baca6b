-- ===== src/Webhook/Cluster/Update.antt =====
-- Which updates api/v1beta1/scalewaycluster_webhook.go admits.
use cluster_api_provider_sca.Prelude.{◌≡◌, ◌↔◌, refl, sym, ◌∙◌, arith, String}
use cluster_api_provider_sca.Result.{Result, ok}
use cluster_api_provider_sca.Sdk.{Sdk}
use cluster_api_provider_sca.Api.Cluster.{ScalewayCluster}
use cluster_api_provider_sca.Webhook.Field.{Admission, admitted, rejected}
use cluster_api_provider_sca.Webhook.Network.{
  validate_network_spec, validate_gateway, validate_groups,
}
use cluster_api_provider_sca.Webhook.Immutable.{filled, enforce_immutability}
use cluster_api_provider_sca.Webhook.Immutable.Laws.{IsUnchanged, enforce_immutability-admitted}
use cluster_api_provider_sca.Webhook.Cluster.{
  validate_load_balancer_spec, validate_in, validate, validate_create, if_admitted, validate_update,
}

balancer-filled :
    (sdk : Sdk) (region : String) (c : ScalewayCluster)
    → validate_load_balancer_spec sdk region (filled c).spec.control_plane_load_balancer
      ≡ validate_load_balancer_spec sdk region c.spec.control_plane_load_balancer
unfolding validate_load_balancer_spec
balancer-filled sdk region c = ground arith

network-filled :
    (sdk : Sdk) (region : String) (c : ScalewayCluster)
    → validate_network_spec sdk region (filled c).spec.network
      ≡ validate_network_spec sdk region c.spec.network
unfolding validate_network_spec validate_gateway validate_groups
network-filled sdk region c = ground arith

validate_in-filled :
    (sdk : Sdk) (c : ScalewayCluster) (region : String)
    → validate_in sdk (filled c) region ≡ validate_in sdk c region
unfolding validate_in
validate_in-filled sdk c region =
    rw (balancer-filled sdk region c, network-filled sdk region c) refl

validate-filled : (sdk : Sdk) (c : ScalewayCluster) → validate sdk (filled c) ≡ validate sdk c
unfolding validate
validate-filled sdk c = let same = validate_in-filled sdk c in grind (arith, same)

if_admitted_iff :
    (a : Admission) (r : Result Admission)
    → (if_admitted a r ≡ ok admitted) ↔ ((a ≡ admitted) × (r ≡ ok admitted))
if_admitted_iff admitted r = (λ p. (refl, p), λ p. p.1)
if_admitted_iff (rejected k n errors) r = (λ p. absurd (cc), λ p. let f = p.0 in absurd (cc))

-- An update of a cluster is admitted exactly when no immutable field changes and the new object
-- could be created.
pub update-admitted :
    (sdk : Sdk) (c old : ScalewayCluster)
    → (validate_update sdk c old ≡ ok admitted)
      ↔ (IsUnchanged c old × (validate_create sdk c ≡ ok admitted))
unfolding validate_update validate_create enforce_immutability
update-admitted sdk c old =
    let same = validate-filled sdk c in
    let unchanged = enforce_immutability-admitted c old in
    let both = if_admitted_iff (enforce_immutability c old).0 (validate sdk (filled c)) in
    (
      λ p. (unchanged.0 (both.0 p).0, sym same ∙ (both.0 p).1),
      λ r. both.1 (unchanged.1 r.0, same ∙ r.1),
    )
