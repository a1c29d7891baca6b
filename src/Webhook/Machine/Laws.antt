-- ===== src/Webhook/Machine/Laws.antt =====
-- Which machines and which updates of a machine are admitted.
use cluster_api_provider_sca.Prelude.{
  ◌≡◌, ◌≢◌, ◌↔◌, refl, ap, Bool, true, false, ◌&&◌, not, Option, none, some, List, [], ◌==◌,
  option_eq, bool_eq, eq_iff, arith, is_some, ℤ, pos, negsuc, eq_ℤ, nat_eq_iff, ◌≤◌,
}
use cluster_api_provider_sca.Api.Machine.{ScalewayMachine, ScalewayMachineSpec}
use cluster_api_provider_sca.Webhook.Field.{FieldError, Admission, admitted, rejected}
use cluster_api_provider_sca.Webhook.Immutable.{str_eq}
use cluster_api_provider_sca.Webhook.Immutable.Laws.{
  option_eq_iff, bool_eq_iff, text_option_iff, checked_iff, not_iff, admission_iff,
}
use cluster_api_provider_sca.Webhook.Machine.{
  validate, is_true, too_small, immutability_errors, enforce_immutability, validate_update,
  if_admitted,
}

int_eq_iff : (a b : ℤ) → (eq_ℤ a b ≡ true) ↔ (a ≡ b)
int_eq_iff (pos a) (pos b) = (λ p. ap pos ((nat_eq_iff a b).0 p), λ p. (nat_eq_iff a b).1 (cc))
int_eq_iff (pos a) (negsuc b) = (λ p. absurd (cc), λ p. absurd (cc))
int_eq_iff (negsuc a) (pos b) = (λ p. absurd (cc), λ p. absurd (cc))
int_eq_iff (negsuc a) (negsuc b) =
    (λ p. ap negsuc ((nat_eq_iff a b).0 p), λ p. (nat_eq_iff a b).1 (cc))

-- What an update may do: the provider's identifier is set once; a public address is chosen once,
-- and not asked for where nothing was chosen; the other fields stay; and the root volume has its
-- smallest size at least.
abbrev pub IsAllowed : ScalewayMachineSpec → ScalewayMachineSpec → Type 0
IsAllowed m old =
    (old.provider_id ≢ none → m.provider_id ≡ old.provider_id)
    × (m.image ≡ old.image)
    × (m.type ≡ old.type)
    × (old.root_volume_size ≡ m.root_volume_size)
    × (old.root_volume_type ≡ m.root_volume_type)
    × (old.public_ip ≢ none → old.public_ip ≡ m.public_ip)
    × (old.public_ip ≡ none → m.public_ip ≢ some true)
    × (old.security_group_name ≡ m.security_group_name)

kept_iff {ℓ κ} :
    {A : Type ℓ} {Q : Type κ} (old : Option A) (b : Bool)
    → (b ≡ true) ↔ Q
    → (is_some old && not b ≡ false) ↔ (old ≢ none → Q)
kept_iff none b same = (λ _ given. absurd (given refl), λ _. refl)
kept_iff (some o) true same = (λ _ _. same.0 refl, λ _. refl)
kept_iff (some o) false same =
    (λ p. absurd (cc), λ q. let f = same.1 (q (λ p. absurd (cc))) in absurd (cc))

not_asked_iff :
    (old new : Option Bool)
    → (not (is_some old) && is_true new ≡ false) ↔ (old ≡ none → new ≢ some true)
not_asked_iff none none = (λ _ _ p. absurd (cc), λ _. refl)
not_asked_iff none (some true) = (λ p. absurd (cc), λ q. absurd (q refl refl))
not_asked_iff none (some false) = (λ _ _ p. absurd (cc), λ _. refl)
not_asked_iff (some o) new = (λ _ p. absurd (cc), λ _. refl)

immutability_errors_iff :
    (m old : ScalewayMachineSpec) → (immutability_errors m old ≡ []) ↔ IsAllowed m old
unfolding immutability_errors
immutability_errors_iff m old =
    let q1 =
      kept_iff old.provider_id (option_eq str_eq m.provider_id old.provider_id)
        (text_option_iff m.provider_id old.provider_id) in
    let q2 = not_iff (m.image == old.image) (eq_iff m.image old.image) in
    let q3 = not_iff (m.type == old.type) (eq_iff m.type old.type) in
    let q4 =
      not_iff (option_eq eq_ℤ old.root_volume_size m.root_volume_size)
        (option_eq_iff eq_ℤ int_eq_iff old.root_volume_size m.root_volume_size) in
    let q5 =
      not_iff (option_eq str_eq old.root_volume_type m.root_volume_type)
        (text_option_iff old.root_volume_type m.root_volume_type) in
    let q6 =
      kept_iff old.public_ip (option_eq bool_eq old.public_ip m.public_ip)
        (option_eq_iff bool_eq bool_eq_iff old.public_ip m.public_ip) in
    let q7 = not_asked_iff old.public_ip m.public_ip in
    let q8 =
      not_iff (option_eq str_eq old.security_group_name m.security_group_name)
        (text_option_iff old.security_group_name m.security_group_name) in
    let nil : List FieldError = [] in
    let start : ((nil ≡ nil) ↔ Unit {0}) = (λ _. tt, λ _. refl) in
    let four =
      checked_iff _ _ _ (checked_iff _ _ _ (checked_iff _ _ _ (checked_iff nil _ _ start q1) q2) q3)
        q4 in
    let all =
      checked_iff _ _ _ (checked_iff _ _ _ (checked_iff _ _ _ (checked_iff _ _ _ four q5) q6) q7)
        q8 in
    (
      λ p.
          let ((((r, r5), r6), r7), r8) = all.0 p in
          let ((((_, r1), r2), r3), r4) = r in (r1, r2, r3, r4, r5, r6, r7, r8),
      λ r.
          let (r1, r2, r3, r4, r5, r6, r7, r8) = r in
          all.1 ((((((((tt, r1), r2), r3), r4), r5), r6), r7), r8),
    )

if_admitted_iff :
    (a b : Admission) → (if_admitted a b ≡ admitted) ↔ ((a ≡ admitted) × (b ≡ admitted))
if_admitted_iff admitted b = (λ p. (refl, p), λ p. p.1)
if_admitted_iff (rejected k n e) b = (λ p. absurd (cc), λ p. let f = p.0 in absurd (cc))

-- The size of a root volume, in GB, where one is asked for.
abbrev pub IsLargeEnough : Option ℤ → Type 0
IsLargeEnough none = Unit {0}
IsLargeEnough (some (pos n)) = 5 ≤ n
IsLargeEnough (some (negsuc n)) = ⊥

too_small_iff : (size : Option ℤ) → (too_small size ≡ false) ↔ IsLargeEnough size
too_small_iff none = (λ _. tt, λ _. refl)
too_small_iff (some (pos n)) = ground arith
too_small_iff (some (negsuc n)) = (λ p. absurd (cc), λ p. absurd p)

pub validate_iff :
    (m : ScalewayMachine) → (validate m ≡ admitted) ↔ IsLargeEnough m.spec.root_volume_size
unfolding validate
validate_iff m = let s = too_small_iff m.spec.root_volume_size in ground arith

-- An update of a machine is admitted exactly when its fields change as they may and the root volume
-- that is asked for has 5 GB at least.
pub validate_update-admitted :
    (m old : ScalewayMachine)
    → (validate_update m old ≡ admitted)
      ↔ (IsAllowed m.spec old.spec × IsLargeEnough m.spec.root_volume_size)
unfolding validate_update enforce_immutability
validate_update-admitted m old =
    let errors = immutability_errors m.spec old.spec in
    let a = admission_iff "ScalewayCluster" m.meta.name errors in
    let i = immutability_errors_iff m.spec old.spec in
    let v = validate_iff m in
    let both = if_admitted_iff (enforce_immutability m old) (validate m) in
    (
      λ p. let (first, second) = both.0 p in (i.0 (a.0 first), v.0 second),
      λ r. both.1 (a.1 (i.1 r.0), v.1 r.1),
    )
