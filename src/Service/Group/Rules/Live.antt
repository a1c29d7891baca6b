-- ===== src/Service/Group/Rules/Live.antt =====
-- When `compareRules` and `toInstanceRequestRule` of
-- internal/service/scaleway/securitygroup/securitygroup.go succeed.
use cluster_api_provider_sca.Prelude.{
  ◌≡◌, refl, ℕ, ◌+◌, String, Option, arith, some, none, List, [], ◌∷◌, length, nat_eq_iff, All,
}
use cluster_api_provider_sca.Sdk.{Sdk}
use cluster_api_provider_sca.Cloud.Instance.{InstanceRule, Direction}
use cluster_api_provider_sca.Api.Group.{GroupRule, GroupPolicy}
use cluster_api_provider_sca.Webhook.Network.Rules.{Succeeds, IsSound, HasSoundRules}
use cluster_api_provider_sca.Service.Group.Rules.{
  default_policy, ip_range_of, compare_rule, compare_rounds, compare_rules,
  to_instance_request_rule, request_rules,
}

module _ (sdk : Sdk) where
  pub default_policy_sound :
      (p : Option GroupPolicy) → HasSoundRules sdk p → Succeeds (default_policy p)
  unfolding default_policy
  default_policy_sound none sound = tt
  default_policy_sound (some p) sound = let fine = sound.0 in grind (arith, fine)

  compare_rule_sound :
      (a : GroupRule) (b : InstanceRule) → IsSound sdk a → Succeeds (compare_rule a b)
  unfolding compare_rule
  compare_rule_sound a b sound =
      let action = sound.0 in
      let protocol = sound.1 in let ports = sound.2 in grind (arith, protocol, action, ports)

  compare_rounds_sound :
      (as' : List GroupRule) (bs : List InstanceRule)
      → length as' ≡ length bs
      → All (IsSound sdk) as'
      → Succeeds (compare_rounds as' bs)
  unfolding compare_rounds
  compare_rounds_sound [] bs same sound = tt
  compare_rounds_sound (a ∷ as') [] same sound = absurd (cc)
  compare_rounds_sound (a ∷ as') (b ∷ bs) same sound =
      let rest = compare_rounds_sound as' bs (omega (arith, same)) sound.1 in
      let first = compare_rule_sound a b sound.0 in grind (arith, rest, first)

  pub compare_rules_sound :
      (as' : List GroupRule) (bs : List InstanceRule)
      → All (IsSound sdk) as'
      → Succeeds (compare_rules as' bs)
  unfolding compare_rules
  compare_rules_sound as' bs sound =
      let rounds = λ (same : length as' ≡ length bs). compare_rounds_sound as' bs same sound in
      grind (arith, rounds, nat_eq_iff)

  module _ (any_address : Succeeds (sdk.parse_cidr "0.0.0.0/0")) (d : Direction) where
    range_sound :
        (rule : GroupRule)
        → IsSound sdk rule
        → Succeeds (sdk.parse_cidr (ip_range_of rule.ip_range))
    range_sound rule sound =
        elim rule.ip_range
            as (λ o.
              ((r : String) → o ≡ some r → Succeeds (sdk.parse_cidr r))
              → Succeeds (sdk.parse_cidr (ip_range_of o))) [
                | none ↦ λ given. any_address
                | some range ↦ λ given. given range refl
              ]
          sound.5

    request_rule_sound :
        (i : ℕ) (rule : GroupRule)
        → IsSound sdk rule
        → Succeeds (to_instance_request_rule sdk i rule d)
    unfolding to_instance_request_rule
    request_rule_sound i rule sound =
        let action = sound.0 in
        let protocol = sound.1 in
        let ports = sound.2 in
        let range = range_sound rule sound in grind (arith, action, protocol, ports, range)

    -- Sound rules are all turned into rules of a request.
    pub request_rules_sound :
        (i : ℕ) (rules : List GroupRule)
        → All (IsSound sdk) rules
        → Succeeds (request_rules sdk i rules d)
    unfolding request_rules
    request_rules_sound i [] sound = tt
    request_rules_sound i (rule ∷ rules) sound =
        let rest = request_rules_sound (i + 1) rules sound.1 in
        let first = λ (position : ℕ). request_rule_sound position rule sound.0 in
        grind (arith, rest, first)
