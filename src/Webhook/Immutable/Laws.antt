-- ===== src/Webhook/Immutable/Laws.antt =====
-- Which updates of a cluster are refused because of a field that may not change.
use cluster_api_provider_sca.Prelude.{
  ◌≡◌, ◌↔◌, refl, ap, String, Bool, true, false, not, Option, none, some, List, [], ◌∷◌, ◌==◌,
  option_eq, bool_eq, eq_iff, arith,
}
use cluster_api_provider_sca.Api.Cluster.{ScalewayCluster, PrivateNetworkSpec, PublicGatewaySpec}
use cluster_api_provider_sca.Webhook.Field.{
  FieldError, admitted, append_error, error_when, admission_of,
}
use cluster_api_provider_sca.Webhook.Immutable.{
  str_eq, private_network_eq, public_gateway_eq, network_or_empty, balancer_or_empty,
  immutability_errors, enforce_immutability,
}

pub option_eq_iff {ℓ} :
    {A : Type ℓ} (eq : A → A → Bool) (law : (a b : A) → (eq a b ≡ true) ↔ (a ≡ b)) (o o' : Option A)
    → (option_eq eq o o' ≡ true) ↔ (o ≡ o')
option_eq_iff eq law none none = (λ _. refl, λ _. refl)
option_eq_iff eq law none (some b) = (λ p. absurd (cc), λ p. absurd (cc))
option_eq_iff eq law (some a) none = (λ p. absurd (cc), λ p. absurd (cc))
option_eq_iff eq law (some a) (some b) = (λ p. ap some ((law a b).0 p), λ p. (law a b).1 (cc))

pub bool_eq_iff : (a b : Bool) → (bool_eq a b ≡ true) ↔ (a ≡ b)
bool_eq_iff a b = ground arith

pub text_option_iff : (o o' : Option String) → (option_eq str_eq o o' ≡ true) ↔ (o ≡ o')
text_option_iff o o' = option_eq_iff str_eq eq_iff o o'

private_network_iff : (a b : PrivateNetworkSpec) → (private_network_eq a b ≡ true) ↔ (a ≡ b)
private_network_iff a b =
    let e = bool_eq_iff a.enabled b.enabled in
    let i = text_option_iff a.id b.id in let s = text_option_iff a.subnet b.subnet in ground arith

public_gateway_iff : (a b : PublicGatewaySpec) → (public_gateway_eq a b ≡ true) ↔ (a ≡ b)
public_gateway_iff a b =
    let e = bool_eq_iff a.enabled b.enabled in
    let i = text_option_iff a.id b.id in
    let t = text_option_iff a.type b.type in
    let p = text_option_iff a.ip b.ip in let z = text_option_iff a.zone b.zone in ground arith

-- A list of errors is empty where nothing was found before and the next check finds nothing.
pub checked_iff {ℓ κ} :
    {P : Type ℓ} {Q : Type κ} (errors : List FieldError) (wrong : Bool) (e : FieldError)
    → (errors ≡ []) ↔ P
    → (wrong ≡ false) ↔ Q
    → (append_error errors (error_when wrong e) ≡ []) ↔ (P × Q)
checked_iff [] true e before next = (λ p. absurd (cc), λ p. let f = next.1 p.1 in absurd (cc))
checked_iff [] false e before next = (λ p. (before.0 refl, next.0 refl), λ p. refl)
checked_iff (x ∷ xs) true e before next = (λ p. absurd (cc), λ p. let f = next.1 p.1 in absurd (cc))
checked_iff (x ∷ xs) false e before next = (λ p. (before.0 p, next.0 refl), λ p. before.1 p.0)

pub not_iff {ℓ} : {Q : Type ℓ} (b : Bool) → (b ≡ true) ↔ Q → (not b ≡ false) ↔ Q
not_iff true same = (λ _. same.0 refl, λ _. refl)
not_iff false same = (λ p. absurd (cc), λ q. let f = same.1 q in absurd (cc))

pub admission_iff :
    (kind name : String) (errors : List FieldError)
    → (admission_of kind name errors ≡ admitted) ↔ (errors ≡ [])
admission_iff kind name [] = (λ _. refl, λ _. refl)
admission_iff kind name (e ∷ errors) = (λ p. absurd (cc), λ p. absurd (cc))

-- The fields that may not change are the same in the two objects, one without a network or a Load
-- Balancer read as one with an empty one.
abbrev pub IsUnchanged : ScalewayCluster → ScalewayCluster → Type 0
IsUnchanged c old =
    let n = network_or_empty c.spec.network in
    let n' = network_or_empty old.spec.network in
    let b = balancer_or_empty c.spec.control_plane_load_balancer in
    let b' = balancer_or_empty old.spec.control_plane_load_balancer in
    (c.spec.region ≡ old.spec.region)
    × (c.spec.scaleway_secret_name ≡ old.spec.scaleway_secret_name)
    × (n.private_network ≡ n'.private_network)
    × (n.public_gateway ≡ n'.public_gateway)
    × (b'.zone ≡ b.zone)
    × (b'.ip ≡ b.ip)

-- An update of a cluster passes the check of immutable fields exactly when the region, the name of
-- the secret, the Private Network, the Public Gateway, and the zone and the address of the Load
-- Balancer are what they were.
pub enforce_immutability-admitted :
    (c old : ScalewayCluster) → ((enforce_immutability c old).0 ≡ admitted) ↔ IsUnchanged c old
unfolding enforce_immutability immutability_errors
enforce_immutability-admitted c old =
    let n = network_or_empty c.spec.network in
    let n' = network_or_empty old.spec.network in
    let b = balancer_or_empty c.spec.control_plane_load_balancer in
    let b' = balancer_or_empty old.spec.control_plane_load_balancer in
    let q1 = not_iff (c.spec.region == old.spec.region) (eq_iff c.spec.region old.spec.region) in
    let q2 =
      not_iff (c.spec.scaleway_secret_name == old.spec.scaleway_secret_name)
        (eq_iff c.spec.scaleway_secret_name old.spec.scaleway_secret_name) in
    let q3 =
      not_iff (option_eq private_network_eq n.private_network n'.private_network) (
        option_eq_iff private_network_eq private_network_iff n.private_network
          n'.private_network) in
    let q4 =
      not_iff (option_eq public_gateway_eq n.public_gateway n'.public_gateway)
        (option_eq_iff public_gateway_eq public_gateway_iff n.public_gateway n'.public_gateway) in
    let q5 = not_iff (option_eq str_eq b'.zone b.zone) (text_option_iff b'.zone b.zone) in
    let q6 = not_iff (option_eq str_eq b'.ip b.ip) (text_option_iff b'.ip b.ip) in
    let nil : List FieldError = [] in
    let start : ((nil ≡ nil) ↔ Unit {0}) = (λ _. tt, λ _. refl) in
    let all =
      checked_iff _ _ _
        (checked_iff _ _ _
          (checked_iff _ _ _
            (checked_iff _ _ _ (checked_iff _ _ _ (checked_iff nil _ _ start q1) q2) q3) q4)
          q5)
        q6 in
    let a = admission_iff "ScalewayCluster" c.meta.name (immutability_errors c old) in
    (
      λ p. let ((((((_, r1), r2), r3), r4), r5), r6) = all.0 (a.0 p) in (r1, r2, r3, r4, r5, r6),
      λ r. let (r1, r2, r3, r4, r5, r6) = r in a.1 (all.1 ((((((tt, r1), r2), r3), r4), r5), r6)),
    )
