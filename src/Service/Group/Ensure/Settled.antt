-- ===== src/Service/Group/Ensure/Settled.antt =====
-- About security groups whose rules were set before.
use cluster_api_provider_sca.Prelude.{
  ◌≡◌, refl, ap, ◌∙◌, ℕ, ◌+◌, String, true, List, [], ◌∷◌, ◌++◌, map, arith, All, if◌then◌else◌,
}
use mathlib.Core.List.{append-nil}
use mathlib.Core.Path.{ap₂}
use cluster_api_provider_sca.Result.{ok}
use cluster_api_provider_sca.Sdk.{Sdk}
use cluster_api_provider_sca.Cloud.{instance_api}
use cluster_api_provider_sca.Cloud.Instance.{
  InstanceGroup, InstanceRule, RequestRule, Direction, inbound, outbound, list_rules,
}
use cluster_api_provider_sca.Prog.{Handler, result, changes}
use cluster_api_provider_sca.Api.Group.{GroupRule, SecurityGroup}
use cluster_api_provider_sca.Scope.Cluster.{Scope}
use cluster_api_provider_sca.Service.Group.Rules.{
  to_instance_request_rule, request_rules, compare_rules,
}
use cluster_api_provider_sca.Service.Group.Rules.Laws.{
  held, IsCanonical, Made-of, compare_rules_iff,
}
use cluster_api_provider_sca.Service.Group.Ensure.{
  direction_is, rules_of, rules_of_policy, ensure_rules,
}

rules_of-append :
    (d : Direction) (xs ys : List InstanceRule)
    → rules_of d (xs ++ ys) ≡ rules_of d xs ++ rules_of d ys
unfolding rules_of
rules_of-append d [] ys = refl
rules_of-append d (x ∷ xs) ys = ground (arith, rules_of-append d xs ys)

made_direction :
    (sdk : Sdk) (i : ℕ) (rule : GroupRule) (d : Direction) {new : RequestRule}
    → to_instance_request_rule sdk i rule d ≡ ok new
    → new.direction ≡ d
unfolding to_instance_request_rule
made_direction sdk i rule d made = ground arith

-- Rules that were made for one direction are all of it.
rules_of-held :
    (sdk : Sdk) (i : ℕ) (rules : List GroupRule) (d e : Direction) {news : List RequestRule}
    → request_rules sdk i rules d ≡ ok news
    → rules_of e (map held news) ≡ (if direction_is e d then map held news else [])
unfolding rules_of request_rules
rules_of-held sdk i [] d e {news} made = let nil : news ≡ [] = cc in rw nil (ground arith)
rules_of-held sdk i (rule ∷ rules) d e {news} made =
    let m = Made-of sdk i rule rules d made in
    let later = rules_of-held sdk (i + 1) rules d e m.made_rest in
    let same = made_direction sdk _ rule d m.made_new in rw m.whole (ground (arith, same, later))

module _ (sdk : Sdk) {ins outs : List RequestRule} (sg : SecurityGroup)
    (made_in : request_rules sdk 0 (rules_of_policy sg.inbound) inbound ≡ ok ins)
    (made_out : request_rules sdk 0 (rules_of_policy sg.outbound) outbound ≡ ok outs) where
  sorted_in : rules_of inbound (map held ins ++ map held outs) ≡ map held ins
  sorted_in =
      (rules_of-append inbound (map held ins) (map held outs)
        ∙ ap₂ ◌++◌ (rules_of-held sdk 0 (rules_of_policy sg.inbound) inbound inbound made_in)
            (rules_of-held sdk 0 (rules_of_policy sg.outbound) outbound inbound made_out)
        ∙ append-nil _)

  sorted_out : rules_of outbound (map held ins ++ map held outs) ≡ map held outs
  sorted_out =
      (rules_of-append outbound (map held ins) (map held outs)
        ∙ ap₂ ◌++◌ (rules_of-held sdk 0 (rules_of_policy sg.inbound) inbound outbound made_in)
            (rules_of-held sdk 0 (rules_of_policy sg.outbound) outbound outbound made_out))

  -- Where the cloud lists the rules of a group as they were set, inbound ones first, and every
  -- address range of the group is the text of its own network, the rules of the group are left as
  -- they are.
  pub ensure_rules_settled :
      {S : Type 0} (h : Handler S) (c : Scope) (zone : String) (group : InstanceGroup) (s : S)
      → (h (instance_api (list_rules group.zone group.id)) s).0 ≡ ok (map held ins ++ map held outs)
      → All (IsCanonical sdk) (rules_of_policy sg.inbound)
      → All (IsCanonical sdk) (rules_of_policy sg.outbound)
      → (changes h (ensure_rules sdk c zone sg group) s ≡ [])
        × (result h (ensure_rules sdk c zone sg group) s ≡ ok tt)
  unfolding ensure_rules
  ensure_rules_settled h c zone group s listed canonical_in canonical_out =
      let given = map held ins ++ map held outs in
      let same_in : compare_rules (rules_of_policy sg.inbound) (rules_of inbound given) ≡ ok true =
        (ap (compare_rules (rules_of_policy sg.inbound)) sorted_in
          ∙ (compare_rules_iff sdk 0 (rules_of_policy sg.inbound) inbound made_in).1
              canonical_in) in
      let same_out : compare_rules (rules_of_policy sg.outbound) (rules_of outbound given)
          ≡ ok true =
        (ap (compare_rules (rules_of_policy sg.outbound)) sorted_out
          ∙ (compare_rules_iff sdk 0 (rules_of_policy sg.outbound) outbound made_out).1
              canonical_out) in
      ground arith
