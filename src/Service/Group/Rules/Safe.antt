-- ===== src/Service/Group/Rules/Safe.antt =====
-- Panics of `compareRules` and `toInstanceRequestRule` of
-- internal/service/scaleway/securitygroup/securitygroup.go.
use cluster_api_provider_sca.Prelude.{
  ◌≡◌, ℕ, ◌+◌, String, Option, arith, some, none, List, [], ◌∷◌, length, nat_eq_iff,
}
use cluster_api_provider_sca.Sdk.{Sdk}
use cluster_api_provider_sca.Sdk.Plain.{IsPlain}
use cluster_api_provider_sca.Cloud.Instance.{InstanceRule, Direction}
use cluster_api_provider_sca.Prog.Runs.{AnyError, Any, Meets}
use cluster_api_provider_sca.Api.Group.{
  GroupRule, GroupPolicy, to_instance, to_instance_action, to_instance_policy,
}
use cluster_api_provider_sca.Api.Ports.Safe.{to_range-plain}
use cluster_api_provider_sca.Service.Group.Rules.{
  default_policy, ip_range_of, compare_rule, compare_rounds, compare_rules,
  to_instance_request_rule, request_rules,
}

protocol-plain : (p : Option String) → Meets AnyError Any (to_instance p)
unfolding to_instance
protocol-plain none = tt
protocol-plain (some p) = ground arith

action-plain : (p : Option String) → Meets AnyError Any (to_instance_action p)
unfolding to_instance_action
action-plain none = tt
action-plain (some p) = ground arith

policy-plain : (p : Option String) → Meets AnyError Any (to_instance_policy p)
unfolding to_instance_policy
policy-plain none = tt
policy-plain (some p) = ground arith

pub default_policy-plain : (p : Option GroupPolicy) → Meets AnyError Any (default_policy p)
unfolding default_policy
default_policy-plain none = tt
default_policy-plain (some p) = let any = policy-plain p.default in grind (arith, policy-plain)

compare_rule-plain : (a : GroupRule) (b : InstanceRule) → Meets AnyError Any (compare_rule a b)
unfolding compare_rule
compare_rule-plain a b =
    let protocol = protocol-plain a.protocol in
    let action = action-plain (some a.action) in
    let ports = to_range-plain a.ports in grind (arith, protocol, action, ports)

compare_rounds-plain :
    (as' : List GroupRule) (bs : List InstanceRule)
    → length as' ≡ length bs
    → Meets AnyError Any (compare_rounds as' bs)
unfolding compare_rounds
compare_rounds-plain [] bs same = tt
compare_rounds-plain (a ∷ as') [] same = absurd (cc)
compare_rounds-plain (a ∷ as') (b ∷ bs) same =
    let rest = compare_rounds-plain as' bs (omega (arith, same)) in
    let first = compare_rule-plain a b in grind (arith, rest, first)

pub compare_rules-plain :
    (as' : List GroupRule) (bs : List InstanceRule) → Meets AnyError Any (compare_rules as' bs)
unfolding compare_rules
compare_rules-plain as' bs = grind (arith, compare_rounds-plain, nat_eq_iff)

module _ (sdk : Sdk) (plain : IsPlain sdk) (d : Direction) where
  request_rule-plain :
      (i : ℕ) (rule : GroupRule) → Meets AnyError Any (to_instance_request_rule sdk i rule d)
  unfolding to_instance_request_rule
  request_rule-plain i rule =
      let protocol = protocol-plain rule.protocol in
      let action = action-plain (some rule.action) in
      let ports = to_range-plain rule.ports in
      let net = plain.cidr (ip_range_of rule.ip_range) in
      grind (arith, protocol, action, ports, net)

  pub request_rules-plain :
      (i : ℕ) (rules : List GroupRule) → Meets AnyError Any (request_rules sdk i rules d)
  unfolding request_rules
  request_rules-plain i [] = tt
  request_rules-plain i (rule ∷ rules) =
      let rest = request_rules-plain (i + 1) rules in grind (arith, rest, request_rule-plain)
