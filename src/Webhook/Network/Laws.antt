-- ===== src/Webhook/Network/Laws.antt =====
-- What the checks of the network of a cluster accept.
use cluster_api_provider_sca.Prelude.{
  ◌≡◌, ◌≢◌, ◌↔◌, refl, ℕ, ◌+◌, String, false, Option, none, some, List, [], ◌∷◌, ◌==◌,
  contains_func, arith, eq_iff, if◌then◌else◌,
}
use cluster_api_provider_sca.Result.{Result, ok, err, panicked}
use cluster_api_provider_sca.Sdk.{Sdk}
use cluster_api_provider_sca.Api.Cluster.{NetworkSpec, PublicGatewaySpec, PrivateNetworkSpec}
use cluster_api_provider_sca.Api.Group.{SecurityGroup}
use cluster_api_provider_sca.Webhook.Field.{Segment}
use cluster_api_provider_sca.Webhook.Network.{
  Check, gateway_path, passes, fails, ◌then_check◌, zone_in_region, check_gateway_id,
  check_gateway_zone, check_subnet, validate_gateway, validate_groups,
}

-- A text that the SDK reads as a zone of the region.
abbrev pub IsZoneOf : Sdk → String → String → Type 0
IsZoneOf sdk region zone =
    (z : String) × (sdk.parse_zone zone ≡ ok z) × (sdk.zone_region z ≡ ok region)

-- The check of a zone passes exactly on a zone of the region.
pub zone_in_region-passes :
    (sdk : Sdk) (region zone : String) (path : List Segment) (detail : String)
    → (zone_in_region sdk region zone path detail ≡ passes) ↔ IsZoneOf sdk region zone
unfolding zone_in_region
zone_in_region-passes sdk region zone path detail = parsed (sdk.parse_zone zone) refl
  where
    placed :
        (z : String) (r : Result String)
        → sdk.zone_region z ≡ r
        → ((elim r as (λ _. Check) [
          | err e ↦ fails path "zone without a region"
          | panicked ↦ panicked
          | ok r ↦ if r == region then passes else fails path detail
        ])
            ≡ passes)
          ↔ (sdk.zone_region z ≡ ok region)
    placed z (ok r) same = let e = eq_iff r region in ground arith
    placed z (err e) same = ground arith
    placed z panicked same = ground arith

    parsed :
        (r : Result String)
        → sdk.parse_zone zone ≡ r
        → ((elim r as (λ _. Check) [
          | err e ↦ fails path "invalid zone"
          | panicked ↦ panicked
          | ok z ↦ elim (sdk.zone_region z) as (λ _. Check) [
            | err e ↦ fails path "zone without a region"
            | panicked ↦ panicked
            | ok r ↦ if r == region then passes else fails path detail
          ]
        ])
            ≡ passes)
          ↔ IsZoneOf sdk region zone
    parsed (ok z) same =
        let p = placed z (sdk.zone_region z) refl in
        (
          λ passed. (z, same, p.0 passed),
          λ found.
              let given = found.1 in
              let placed = found.2 in let e : z ≡ found.0 = cc in p.1 (rw e placed),
        )
    parsed (err e) same = (λ p. absurd (cc), λ found. let f = found.1 in absurd (cc))
    parsed panicked same = (λ p. absurd (cc), λ found. let f = found.1 in absurd (cc))

pub then_check-passes : (a b : Check) → (a then_check b ≡ passes) ↔ ((a ≡ passes) × (b ≡ passes))
then_check-passes a b = ground arith

-- No name stands twice in the list of the groups, nor among the names before.
abbrev pub AreFresh : List SecurityGroup → List String → Type 0
AreFresh [] names = Unit {0}
AreFresh (g ∷ groups) names =
    (contains_func (λ n. n == g.name) names ≡ false) × AreFresh groups (g.name ∷ names)

validate_groups-AreFresh :
    (sdk : Sdk) (i : ℕ) (groups : List SecurityGroup) (names : List String)
    → validate_groups sdk i groups names ≡ passes
    → AreFresh groups names
unfolding validate_groups
validate_groups-AreFresh sdk i [] names passed = tt
validate_groups-AreFresh sdk i (g ∷ groups) names passed =
    ground (arith, validate_groups-AreFresh sdk (i + 1) groups (g.name ∷ names))

-- A Private Network that exists comes without a subnet.
abbrev pub IsSubnetFree : Option PrivateNetworkSpec → Type 0
IsSubnetFree none = Unit {0}
IsSubnetFree (some n) = n.subnet ≢ none → n.id ≡ none

-- What the checks want of a Public Gateway and of the Private Network beside it.
abbrev pub IsSound : Sdk → String → PublicGatewaySpec → Option PrivateNetworkSpec → Type 0
IsSound sdk region g network =
    ((zone : String) → g.zone ≡ some zone → IsZoneOf sdk region zone)
    × (g.id ≢ none → (g.type ≡ none) × (g.ip ≡ none) × (g.zone ≢ none))
    × IsSubnetFree network

gateway_zone_iff :
    (sdk : Sdk) (region : String) (o : Option String)
    → (check_gateway_zone sdk region o ≡ passes)
      ↔ ((zone : String) → o ≡ some zone → IsZoneOf sdk region zone)
gateway_zone_iff sdk region none = (λ _ z p. absurd (cc), λ _. refl)
gateway_zone_iff sdk region (some zone) =
    let z =
      zone_in_region-passes sdk region zone (gateway_path "zone")
        "public gateway must be in the cluster region" in
    (λ p z' e. let same : z' ≡ zone = cc in rw same (z.0 p), λ q. z.1 (q zone refl))

gateway_id_iff :
    (g : PublicGatewaySpec)
    → (check_gateway_id g ≡ passes)
      ↔ (g.id ≢ none → (g.type ≡ none) × (g.ip ≡ none) × (g.zone ≢ none))
unfolding check_gateway_id
gateway_id_iff g = ground arith

subnet_iff :
    (network : Option PrivateNetworkSpec) → (check_subnet network ≡ passes) ↔ IsSubnetFree network
unfolding check_subnet
subnet_iff none = (λ _. tt, λ _. refl)
subnet_iff (some n) = ground arith

-- The checks on a Public Gateway pass exactly where its zone, if it has one, is one of the region,
-- where a gateway that exists has a zone and neither a type nor an address, and where a Private
-- Network that exists has no subnet.
pub validate_gateway-passes :
    (sdk : Sdk) (region : String) (n : NetworkSpec) {g : PublicGatewaySpec}
    → n.public_gateway ≡ some g
    → (validate_gateway sdk region n ≡ passes) ↔ IsSound sdk region g n.private_network
unfolding validate_gateway
validate_gateway-passes sdk region n {g} given =
    let z = gateway_zone_iff sdk region g.zone in
    let i = gateway_id_iff g in
    let s = subnet_iff n.private_network in
    let zone = check_gateway_zone sdk region g.zone in
    let identity = check_gateway_id g in
    let subnet = check_subnet n.private_network in
    let first = then_check-passes zone identity in
    let all = then_check-passes (zone then_check identity) subnet in
    rw given (
      λ p.
          let (before, last) = all.0 p in
          let (one, two) = first.0 before in (z.0 one, i.0 two, s.0 last),
      λ r. all.1 (first.1 (z.1 r.0, i.1 r.1), s.1 r.2),
    )
