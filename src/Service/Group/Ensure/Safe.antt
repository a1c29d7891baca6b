-- ===== src/Service/Group/Ensure/Safe.antt =====
-- Panics of internal/service/scaleway/securitygroup/securitygroup.go.
use cluster_api_provider_sca.Prelude.{
  String, Option, arith, some, none, List, [], ◌∷◌, find_first, ◌==◌, ◌&&◌,
}
use cluster_api_provider_sca.Result.{wrapped}
use cluster_api_provider_sca.Sdk.{Sdk}
use cluster_api_provider_sca.Sdk.Plain.{IsPlain}
use cluster_api_provider_sca.Cloud.Instance.{
  list_groups_by_tags, InstanceGroup, Policy, inbound, outbound,
}
use cluster_api_provider_sca.Prog.{Handler, lift, ask, wrapping, ◌>>=◌, ◌>>◌}
use cluster_api_provider_sca.Prog.Runs.{
  AnyError, Any, Meets, Runs, Runs-bind, Runs-wrapping, IsCalm,
}
use cluster_api_provider_sca.Api.Group.{SecurityGroup}
use cluster_api_provider_sca.Scope.Cluster.{Scope, zones, tags, security_group_name}
use cluster_api_provider_sca.Service.Group.Rules.Safe.{
  default_policy-plain, compare_rules-plain, request_rules-plain,
}
use cluster_api_provider_sca.Cloud.{instance_api}
use cluster_api_provider_sca.Service.Group.Rules.{default_policy}
use cluster_api_provider_sca.Service.Group.Ensure.{
  rules_of_policy, prune_groups, ensure_group, ensure_rules, ensure_in_zone, ensure_in_zones,
  ensure_each, ensure_security_groups, groups_of_spec, reconcile, delete, new_rules,
}

module _ {S : Type 0} (h : Handler S) (calm : IsCalm h) (sdk : Sdk) (plain : IsPlain sdk)
    (c : Scope) where
  prune-Runs :
      (groups : List SecurityGroup) (es : List InstanceGroup)
      → Runs h AnyError Any (prune_groups sdk c groups es)
  unfolding prune_groups
  prune-Runs groups [] s = tt
  prune-Runs groups (e ∷ es) s = let rest = prune-Runs groups es in grind (arith, calm, rest)

  group-Runs :
      (zone name : String) (p q : Policy) (g : Option InstanceGroup)
      → Runs h AnyError Any (ensure_group sdk c zone name p q g)
  unfolding ensure_group
  group-Runs zone name p q none s = grind (arith, calm)
  group-Runs zone name p q (some g) s = grind (arith, calm)

  new_rules-plain : (sg : SecurityGroup) → Meets AnyError Any (new_rules sdk c sg)
  new_rules-plain sg =
      let ins = request_rules-plain sdk plain inbound 0 (rules_of_policy sg.inbound) in
      let outs = request_rules-plain sdk plain outbound 0 (rules_of_policy sg.outbound) in
      grind (arith, ins, outs)

  rules-Runs :
      (zone : String) (sg : SecurityGroup) (g : InstanceGroup)
      → Runs h AnyError Any (ensure_rules sdk c zone sg g)
  unfolding ensure_rules
  rules-Runs zone sg g s =
      let new = new_rules-plain sg in grind (arith, calm, new, compare_rules-plain)

  in_zone-Runs :
      (es : List InstanceGroup) (sg : SecurityGroup) (zone : String)
      → Runs h AnyError Any (ensure_in_zone sdk c es sg zone)
  unfolding ensure_in_zone
  in_zone-Runs es sg zone =
      let name = security_group_name c.cluster sg.name in
      let found = find_first (λ group. (group.name == name) && (group.zone == zone)) es in
      let last =
        λ (p q : Policy). ensure_group sdk c zone name p q found >>= ensure_rules sdk c zone sg in
      Runs-bind h AnyError Any Any (lift (default_policy sg.inbound))
        (λ p. lift (default_policy sg.outbound) >>= last p) (λ _. default_policy-plain sg.inbound)
        (λ p _.
          Runs-bind h AnyError Any Any (lift (default_policy sg.outbound)) (last p)
            (λ _. default_policy-plain sg.outbound)
            (λ q _.
              Runs-bind h AnyError Any Any (ensure_group sdk c zone name p q found)
                (ensure_rules sdk c zone sg) (group-Runs zone name p q found)
                (λ g _. rules-Runs zone sg g)))

  in_zones-Runs :
      (es : List InstanceGroup) (sg : SecurityGroup) (zs : List String)
      → Runs h AnyError Any (ensure_in_zones sdk c es sg zs)
  unfolding ensure_in_zones
  in_zones-Runs es sg [] = λ _. tt
  in_zones-Runs es sg (z ∷ zs) =
      Runs-bind h AnyError Any Any (ensure_in_zone sdk c es sg z)
        (λ _. ensure_in_zones sdk c es sg zs) (in_zone-Runs es sg z) (λ _ _. in_zones-Runs es sg zs)

  each-Runs :
      (es : List InstanceGroup) (sgs : List SecurityGroup)
      → Runs h AnyError Any (ensure_each sdk c es sgs)
  unfolding ensure_each
  each-Runs es [] = λ _. tt
  each-Runs es (sg ∷ sgs) =
      let zs = zones sdk c.cluster sdk.instance_zones in
      Runs-bind h AnyError Any Any (ensure_in_zones sdk c es sg zs) (λ _. ensure_each sdk c es sgs)
        (in_zones-Runs es sg zs) (λ _ _. each-Runs es sgs)

  ensure-Runs :
      (groups : List SecurityGroup) → Runs h AnyError Any (ensure_security_groups sdk c groups)
  unfolding ensure_security_groups
  ensure-Runs groups =
      let text : String = "failed to list security groups" in
      let listed = ask (
        instance_api
          (list_groups_by_tags (zones sdk c.cluster sdk.instance_zones) (tags c.cluster))) in
      Runs-bind h AnyError Any Any (wrapping listed (wrapped text))
        (λ es. prune_groups sdk c groups es >> ensure_each sdk c es groups)
        (Runs-wrapping h Any text listed (λ s. calm _ s))
        (λ es _.
          Runs-bind h AnyError Any Any (prune_groups sdk c groups es)
            (λ _. ensure_each sdk c es groups) (prune-Runs groups es) (λ _ _. each-Runs es groups))

  pub group_reconcile-Runs : Runs h AnyError Any (reconcile sdk c)
  unfolding reconcile
  group_reconcile-Runs = ensure-Runs (groups_of_spec sdk c)

  pub group_delete-Runs : Runs h AnyError Any (delete sdk c)
  unfolding delete
  group_delete-Runs = ensure-Runs []
