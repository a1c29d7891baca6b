-- ===== src/Webhook/Cluster/Laws.antt =====
-- Which clusters are admitted when they are made.
use cluster_api_provider_sca.Prelude.{
  ◌≡◌, ◌↔◌, refl, ℕ, ◌+◌, String, false, some, List, [], ◌∷◌, ◌==◌, contains_func, arith, eq_iff,
  if◌then◌else◌,
}
use cluster_api_provider_sca.Result.{Result, ok, err, panicked, ◌>>=◌}
use cluster_api_provider_sca.Sdk.{Sdk}
use cluster_api_provider_sca.Api.Cluster.{ScalewayCluster}
use cluster_api_provider_sca.Webhook.Field.{
  Segment, child, index, duplicate, invalid, Admission, admitted, rejected, append_error,
  admission_of,
}
use cluster_api_provider_sca.Webhook.Network.{Check, passes, fails, validate_network_spec}
use cluster_api_provider_sca.Webhook.Cluster.{
  validate_domains, validate_failure_domains, validate_load_balancer_spec, validate_in, validate,
  validate_create, kind,
}

-- The failure domains are zones of the region, each met once: `seen` are those before.
pub data AreDomains (sdk : Sdk) (region : String) : List String → List String → Type 0 where
  end : {seen : List String} → AreDomains sdk region [] seen
  next :
      {fd zone : String} {fds seen : List String}
      → sdk.parse_zone fd ≡ ok zone
      → sdk.zone_region zone ≡ ok region
      → contains_func (λ z. z == zone) seen ≡ false
      → AreDomains sdk region fds (zone ∷ seen)
      → AreDomains sdk region (fd ∷ fds) seen

-- What one round of the check of the failure domains takes to go on and to pass.
module _ (sdk : Sdk) (region : String) (path : List Segment) (seen : List String)
    (rest : String → Check) where
  abbrev check_placed : String → Result String → Check
  check_placed zone (err e) = fails path "zone without a region"
  check_placed zone panicked = panicked
  check_placed zone (ok r) =
      if region == r
      then (if contains_func (λ z. z == zone) seen then ok (some (duplicate path)) else rest zone)
      else fails path "failureDomain must be in the cluster region"

  placed_domain :
      (zone : String) (r : Result String)
      → check_placed zone r ≡ passes
      → (r ≡ ok region) × (contains_func (λ z. z == zone) seen ≡ false) × (rest zone ≡ passes)
  placed_domain zone (err e) passed = absurd (cc)
  placed_domain zone panicked passed = absurd (cc)
  placed_domain zone (ok r) passed = let e = eq_iff region r in ground arith

  parsed_domain :
      (p : Result String)
      → (elim p as (λ _. Check) [
        | err e ↦ fails path "invalid zone"
        | panicked ↦ panicked
        | ok zone ↦ elim (sdk.zone_region zone) as (λ _. Check) [
          | err e ↦ fails path "zone without a region"
          | panicked ↦ panicked
          | ok r ↦
              if region == r
              then (if contains_func (λ z. z == zone) seen
                  then ok (some (duplicate path))
                  else rest zone)
              else fails path "failureDomain must be in the cluster region"
        ]
      ])
        ≡ passes
      → (zone : String) × (p ≡ ok zone)
        × (sdk.zone_region zone ≡ ok region)
        × (contains_func (λ z. z == zone) seen ≡ false)
        × (rest zone ≡ passes)
  parsed_domain (ok zone) passed =
      let (placed, fresh, later) = placed_domain zone (sdk.zone_region zone) passed in
      (zone, refl, placed, fresh, later)
  parsed_domain (err e) passed = absurd (cc)
  parsed_domain panicked passed = absurd (cc)

module _ (sdk : Sdk) (region : String) where
  domains_sound :
      (i : ℕ) (fds seen : List String)
      → validate_domains sdk region i fds seen ≡ passes
      → AreDomains sdk region fds seen
  unfolding validate_domains
  domains_sound i [] seen passed = end
  domains_sound i (fd ∷ fds) seen passed =
      let rest = λ (z : String). validate_domains sdk region (i + 1) fds (z ∷ seen) in
      let (zone, parsed, placed, fresh, later) =
        parsed_domain sdk region (child "spec" ∷ child "failureDomains" ∷ index i ∷ []) seen rest
          (sdk.parse_zone fd) passed in
      next parsed placed fresh (domains_sound (i + 1) fds (zone ∷ seen) later)

  domains_complete :
      (i : ℕ) (fds seen : List String)
      → AreDomains sdk region fds seen
      → validate_domains sdk region i fds seen ≡ passes
  unfolding validate_domains
  domains_complete i [] seen end = refl
  domains_complete i (fd ∷ fds) seen (next {zone = zone} parsed placed fresh rest) =
      let r = (eq_iff region region).1 refl in
      let later = domains_complete (i + 1) fds (zone ∷ seen) rest in ground arith

collected_iff :
    (kind name : String) (a b c : Check)
    → ((a >>= λ x. b >>= λ y. c >>= λ z.
          ok (admission_of kind name (append_error (append_error (append_error [] x) y) z)))
        ≡ ok admitted)
      ↔ ((a ≡ passes) × (b ≡ passes) × (c ≡ passes))
collected_iff kind name a b c = ground arith

-- A cluster is admitted at its creation exactly when its region is one, and the checks of its
-- failure domains, its Load Balancer and its network pass.
pub validate_create-admitted :
    (sdk : Sdk) (c : ScalewayCluster)
    → (validate_create sdk c ≡ ok admitted) ↔ (
        (region : String) × (sdk.parse_region c.spec.region ≡ ok region)
        × AreDomains sdk region c.spec.failure_domains []
        × (validate_load_balancer_spec sdk region c.spec.control_plane_load_balancer ≡ passes)
        × (validate_network_spec sdk region c.spec.network ≡ passes))
unfolding validate_create validate validate_in validate_failure_domains
validate_create-admitted sdk c = with_region (sdk.parse_region c.spec.region)
  where
    with_region :
        (r : Result String)
        → ((elim r as (λ _. Result Admission) [
          | ok region ↦ validate_in sdk c region
          | err e ↦ ok (
              rejected kind c.meta.name
                (invalid (child "spec" ∷ child "region" ∷ []) "invalid region" ∷ []))
          | panicked ↦ panicked
        ])
            ≡ ok admitted)
          ↔ ((region : String) × (r ≡ ok region)
              × AreDomains sdk region c.spec.failure_domains []
              × (validate_load_balancer_spec sdk region c.spec.control_plane_load_balancer ≡ passes)
              × (validate_network_spec sdk region c.spec.network ≡ passes))
    with_region (ok region) =
        let all =
          collected_iff kind c.meta.name
            (validate_failure_domains sdk region c.spec.failure_domains)
            (validate_load_balancer_spec sdk region c.spec.control_plane_load_balancer)
            (validate_network_spec sdk region c.spec.network) in
        (
          λ p.
              let (domains, balancer, network) = all.0 p in
              (
                region,
                refl,
                domains_sound sdk region 0 c.spec.failure_domains [] domains,
                balancer,
                network,
              ),
          λ found.
              let same = found.1 in
              let e : region ≡ found.0 = cc in
              all.1 (
                rw e (domains_complete sdk found.0 0 c.spec.failure_domains [] found.2),
                rw e found.3,
                rw e found.4,
              ),
        )
    with_region (err e) = (λ p. absurd (cc), λ found. let f = found.1 in absurd (cc))
    with_region panicked = (λ p. absurd (cc), λ found. let f = found.1 in absurd (cc))
