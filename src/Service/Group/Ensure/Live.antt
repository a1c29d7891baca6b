-- ===== src/Service/Group/Ensure/Live.antt =====
-- When `Reconcile` of internal/service/scaleway/securitygroup/securitygroup.go succeeds.
use cluster_api_provider_sca.Prelude.{
  String, Option, arith, some, none, List, [], ◌∷◌, find_first, All, ◌==◌, ◌&&◌,
}
use cluster_api_provider_sca.Result.{wrapped}
use cluster_api_provider_sca.Sdk.{Sdk}
use cluster_api_provider_sca.Cloud.Instance.{
  list_groups_by_tags, InstanceGroup, InstanceRule, Policy, inbound, outbound,
}
use cluster_api_provider_sca.Prog.{Handler, lift, ask, wrapping, ◌>>=◌, ◌>>◌}
use cluster_api_provider_sca.Prog.Runs.{NoError, Any, Runs, Runs-bind, IsWilling}
use cluster_api_provider_sca.Api.Group.{SecurityGroup, GroupPolicy}
use cluster_api_provider_sca.Scope.Cluster.{Scope, zones, tags, security_group_name}
use cluster_api_provider_sca.Service.Group.Rules.Live.{
  default_policy_sound, compare_rules_sound, request_rules_sound,
}
use cluster_api_provider_sca.Webhook.Network.Rules.{Succeeds, IsSound, HasSoundRules, IsSoundGroup}
use cluster_api_provider_sca.Client.Found.{wrapping_answered}
use cluster_api_provider_sca.Cloud.{instance_api}
use cluster_api_provider_sca.Service.Group.Rules.{default_policy}
use cluster_api_provider_sca.Service.Group.Ensure.{
  rules_of_policy, prune_groups, ensure_group, ensure_rules, ensure_in_zone, ensure_in_zones,
  ensure_each, ensure_security_groups, groups_of_spec, reconcile, new_rules,
}

module _ {S : Type 0} (h : Handler S) (answers : IsWilling h) (sdk : Sdk)
    (any_address : Succeeds (sdk.parse_cidr "0.0.0.0/0")) (c : Scope) where
  prune-Runs :
      (groups : List SecurityGroup) (es : List InstanceGroup)
      → Runs h NoError Any (prune_groups sdk c groups es)
  unfolding prune_groups
  prune-Runs groups [] s = tt
  prune-Runs groups (e ∷ es) s = let rest = prune-Runs groups es in grind (arith, answers, rest)

  group-Runs :
      (zone name : String) (p q : Policy) (g : Option InstanceGroup)
      → Runs h NoError Any (ensure_group sdk c zone name p q g)
  unfolding ensure_group
  group-Runs zone name p q none s = grind (arith, answers)
  group-Runs zone name p q (some g) s = grind (arith, answers)

  policy_rules-IsSound :
      (p : Option GroupPolicy) → HasSoundRules sdk p → All (IsSound sdk) (rules_of_policy p)
  policy_rules-IsSound none sound = tt
  policy_rules-IsSound (some p) sound = sound.1

  new_rules_sound : (sg : SecurityGroup) → IsSoundGroup sdk sg → Succeeds (new_rules sdk c sg)
  new_rules_sound sg sound =
      let ins =
        request_rules_sound sdk any_address inbound 0 (rules_of_policy sg.inbound)
          (policy_rules-IsSound sg.inbound sound.0) in
      let outs =
        request_rules_sound sdk any_address outbound 0 (rules_of_policy sg.outbound)
          (policy_rules-IsSound sg.outbound sound.1) in
      grind (arith, ins, outs)

  rules-Runs :
      (zone : String) (sg : SecurityGroup) (g : InstanceGroup)
      → IsSoundGroup sdk sg
      → Runs h NoError Any (ensure_rules sdk c zone sg g)
  unfolding ensure_rules
  rules-Runs zone sg g sound s =
      let new = new_rules_sound sg sound in
      let ins = λ (bs : List InstanceRule).
        compare_rules_sound sdk (rules_of_policy sg.inbound) bs
          (policy_rules-IsSound sg.inbound sound.0) in
      let outs = λ (bs : List InstanceRule).
        compare_rules_sound sdk (rules_of_policy sg.outbound) bs
          (policy_rules-IsSound sg.outbound sound.1) in
      grind (arith, answers, new, ins, outs)

  in_zone-Runs :
      (es : List InstanceGroup) (sg : SecurityGroup) (zone : String)
      → IsSoundGroup sdk sg
      → Runs h NoError Any (ensure_in_zone sdk c es sg zone)
  unfolding ensure_in_zone
  in_zone-Runs es sg zone sound =
      let name = security_group_name c.cluster sg.name in
      let found = find_first (λ group. (group.name == name) && (group.zone == zone)) es in
      let last =
        λ (p q : Policy). ensure_group sdk c zone name p q found >>= ensure_rules sdk c zone sg in
      Runs-bind h NoError Any Any (lift (default_policy sg.inbound))
        (λ p. lift (default_policy sg.outbound) >>= last p)
        (λ _. default_policy_sound sdk sg.inbound sound.0)
        (λ p _.
          Runs-bind h NoError Any Any (lift (default_policy sg.outbound)) (last p)
            (λ _. default_policy_sound sdk sg.outbound sound.1)
            (λ q _.
              Runs-bind h NoError Any Any (ensure_group sdk c zone name p q found)
                (ensure_rules sdk c zone sg) (group-Runs zone name p q found)
                (λ g _. rules-Runs zone sg g sound)))

  in_zones-Runs :
      (es : List InstanceGroup) (sg : SecurityGroup) (zs : List String)
      → IsSoundGroup sdk sg
      → Runs h NoError Any (ensure_in_zones sdk c es sg zs)
  unfolding ensure_in_zones
  in_zones-Runs es sg [] sound = λ _. tt
  in_zones-Runs es sg (z ∷ zs) sound =
      Runs-bind h NoError Any Any (ensure_in_zone sdk c es sg z)
        (λ _. ensure_in_zones sdk c es sg zs) (in_zone-Runs es sg z sound)
        (λ _ _. in_zones-Runs es sg zs sound)

  each-Runs :
      (es : List InstanceGroup) (sgs : List SecurityGroup)
      → All (IsSoundGroup sdk) sgs
      → Runs h NoError Any (ensure_each sdk c es sgs)
  unfolding ensure_each
  each-Runs es [] sound = λ _. tt
  each-Runs es (sg ∷ sgs) sound =
      let zs = zones sdk c.cluster sdk.instance_zones in
      Runs-bind h NoError Any Any (ensure_in_zones sdk c es sg zs) (λ _. ensure_each sdk c es sgs)
        (in_zones-Runs es sg zs sound.0) (λ _ _. each-Runs es sgs sound.1)

  ensure-Runs :
      (groups : List SecurityGroup)
      → All (IsSoundGroup sdk) groups
      → Runs h NoError Any (ensure_security_groups sdk c groups)
  unfolding ensure_security_groups
  ensure-Runs groups sound =
      let text : String = "failed to list security groups" in
      let listed = ask (
        instance_api
          (list_groups_by_tags (zones sdk c.cluster sdk.instance_zones) (tags c.cluster))) in
      Runs-bind h NoError Any Any (wrapping listed (wrapped text))
        (λ es. prune_groups sdk c groups es >> ensure_each sdk c es groups)
        (wrapping_answered h Any text listed (λ s. answers _ s))
        (λ es _.
          Runs-bind h NoError Any Any (prune_groups sdk c groups es)
            (λ _. ensure_each sdk c es groups) (prune-Runs groups es)
            (λ _ _. each-Runs es groups sound))

  -- A reconciliation of groups that the webhook admits succeeds.
  pub groups-Succeeds :
      All (IsSoundGroup sdk) (groups_of_spec sdk c) → Runs h NoError Any (reconcile sdk c)
  unfolding reconcile
  groups-Succeeds sound = ensure-Runs (groups_of_spec sdk c) sound
