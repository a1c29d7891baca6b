-- ===== src/Service/Group/Ensure.antt =====
-- `ensureSecurityGroups`, `Reconcile` and `Delete` of the security group service.
pub mod Laws
pub mod Safe
pub mod Live
pub mod Bounds
pub mod Settled
use cluster_api_provider_sca.Prelude.{
  ℕ, String, Bool, true, false, ◌&&◌, ◌||◌, not, Option, none, some, List, [], ◌∷◌, ◌++◌, ◌==◌,
  contains_func, find_first, if◌then◌else◌,
}
use cluster_api_provider_sca.Result.{Result, ok, wrapped, ◌>>=◌ as ◌then_result◌}
use cluster_api_provider_sca.Sdk.{Sdk}
use cluster_api_provider_sca.Cloud.{instance_api}
use cluster_api_provider_sca.Cloud.Instance.{
  InstanceGroup, InstanceRule, Policy, Direction, inbound, outbound, other_direction, RequestRule,
  list_groups_by_tags, create_group, update_group, delete_group, list_rules, set_rules,
}
use cluster_api_provider_sca.Prog.{Io, ask, pure, lift, wrapping, ◌>>=◌, ◌>>◌}
use cluster_api_provider_sca.Api.Group.{GroupRule, GroupPolicy, SecurityGroup}
use cluster_api_provider_sca.Scope.Cluster.{Scope, zones, tags, security_group_name}
use cluster_api_provider_sca.Service.Group.Rules.{
  policy_eq, default_policy, compare_rules, request_rules,
}

abbrev pub direction_is : Direction → Direction → Bool
direction_is inbound inbound = true
direction_is outbound outbound = true
direction_is _ _ = false

-- The loop that sorts the rules by direction, for one direction.
unfoldable pub rules_of : Direction → List InstanceRule → List InstanceRule
rules_of d [] = []
rules_of d (rule ∷ rules) =
    let rest = rules_of d rules in if direction_is d rule.direction then rule ∷ rest else rest

abbrev pub rules_of_policy : Option GroupPolicy → List GroupRule
rules_of_policy none = []
rules_of_policy (some p) = p.rules

module _ (sdk : Sdk) (s : Scope) where
  -- Whether a group of the cloud has the name of one of the groups.
  abbrev pub is_wanted : List SecurityGroup → InstanceGroup → Bool
  is_wanted groups existing =
      contains_func (λ group. security_group_name s.cluster group.name == existing.name) groups

  -- The first loop: the groups that should not exist go.
  unfoldable pub prune_groups : List SecurityGroup → List InstanceGroup → Io (Unit {0})
  prune_groups groups [] = pure tt
  prune_groups groups (existing ∷ rest) = elim (is_wanted groups existing) [
    | true ↦ prune_groups groups rest
    | false ↦
        wrapping (ask (instance_api (delete_group existing.zone existing.id)))
          (wrapped "failed to delete existing security group")
        >> prune_groups groups rest
  ]

  abbrev pub policies_differ : InstanceGroup → Policy → Policy → Bool
  policies_differ group in_policy out_policy =
      not (policy_eq group.inbound_default_policy in_policy)
      || not (policy_eq group.outbound_default_policy out_policy)
      || group.enable_default_security

  -- The group of a name in a zone: created, updated, or as it is.
  unfoldable pub ensure_group :
      String → String → Policy → Policy → Option InstanceGroup → Io InstanceGroup
  ensure_group zone name in_policy out_policy none =
      wrapping
        (ask (
          instance_api (
            create_group (record {
              zone = zone;
              name = name;
              tags = tags s.cluster;
              inbound_default_policy = in_policy;
              outbound_default_policy = out_policy;
              enable_default_security = false;
              stateful = true;
            }))))
        (wrapped "failed to create security group")
  ensure_group zone name in_policy out_policy (some group) =
      if policies_differ group in_policy out_policy
      then wrapping
          (ask (
            instance_api (
              update_group (record {
                zone = zone;
                id = group.id;
                inbound_default_policy = in_policy;
                outbound_default_policy = out_policy;
                enable_default_security = false;
              }))))
          (wrapped "failed to update security group")
        >> pure group
      else pure group

  abbrev pub new_rules : SecurityGroup → Result (List RequestRule)
  new_rules sg = request_rules sdk 0 (rules_of_policy sg.inbound) inbound then_result λ ins.
      request_rules sdk 0 (rules_of_policy sg.outbound) outbound then_result λ outs.
      ok (ins ++ outs)

  -- The rules of a group in a zone: set anew where they are not as expected.
  unfoldable pub ensure_rules : String → SecurityGroup → InstanceGroup → Io (Unit {0})
  unfolding rules_of
  ensure_rules zone sg group = do
    rules ←
        wrapping (ask (instance_api (list_rules group.zone group.id)))
          (wrapped "failed to list security group rules")
    same_in ← lift (
        wrapped "failed to compare inbound rules with instance inbound rules"
          (compare_rules (rules_of_policy sg.inbound) (rules_of inbound rules)))
    same_out ← lift (
        wrapped "failed to compare outbound rules with instance outbound rules"
          (compare_rules (rules_of_policy sg.outbound) (rules_of outbound rules)))
    if same_in && same_out then pure tt else do
      new ← lift (new_rules sg)
      wrapping (ask (instance_api (set_rules zone group.id new)))
          (wrapped "failed to set security group rules")

  -- One round of the inner loop: one group in one zone.
  unfoldable pub ensure_in_zone : List InstanceGroup → SecurityGroup → String → Io (Unit {0})
  ensure_in_zone existing sg zone = do
    let name = security_group_name s.cluster sg.name
    in_policy ← lift (default_policy sg.inbound)
    out_policy ← lift (default_policy sg.outbound)
    group ←
        ensure_group zone name in_policy out_policy
          (find_first (λ group. (group.name == name) && (group.zone == zone)) existing)
    ensure_rules zone sg group

  unfoldable pub ensure_in_zones : List InstanceGroup → SecurityGroup → List String → Io (Unit {0})
  ensure_in_zones existing sg [] = pure tt
  ensure_in_zones existing sg (zone ∷ rest) =
      ensure_in_zone existing sg zone >> ensure_in_zones existing sg rest

  unfoldable pub ensure_each : List InstanceGroup → List SecurityGroup → Io (Unit {0})
  unfolding ensure_in_zones
  ensure_each existing [] = pure tt
  ensure_each existing (sg ∷ rest) =
      ensure_in_zones existing sg (zones sdk s.cluster sdk.instance_zones)
      >> ensure_each existing rest

  -- `ensureSecurityGroups`
  unfoldable pub ensure_security_groups : List SecurityGroup → Io (Unit {0})
  ensure_security_groups groups = do
    existing ←
        wrapping
          (ask (
            instance_api
              (list_groups_by_tags (zones sdk s.cluster sdk.instance_zones) (tags s.cluster))))
          (wrapped "failed to list security groups")
    prune_groups groups existing
    ensure_each existing groups

  abbrev pub groups_of_spec : List SecurityGroup
  groups_of_spec = elim s.cluster.spec.network [ none ↦ [] | some n ↦ n.security_groups ]

  -- `Reconcile`
  unfoldable pub reconcile : Io (Unit {0})
  reconcile = ensure_security_groups groups_of_spec

  -- `Delete`
  unfoldable pub delete : Io (Unit {0})
  delete = ensure_security_groups []
