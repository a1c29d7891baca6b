-- ===== src/Service/Group/Ensure/Bounds.antt =====
-- How many requests `Reconcile` of internal/service/scaleway/securitygroup/securitygroup.go makes.
use cluster_api_provider_sca.Prelude.{
  ℕ, ◌+◌, ◌*◌, ◌≤◌, String, Option, some, none, List, [], ◌∷◌, length, arith, find_first, ◌==◌,
  ◌&&◌,
}
use cluster_api_provider_sca.Result.{Result, ok, err, panicked, wrapped}
use cluster_api_provider_sca.Sdk.{Sdk}
use cluster_api_provider_sca.Cloud.{instance_api}
use cluster_api_provider_sca.Cloud.Instance.{InstanceGroup, Policy, list_groups_by_tags}
use cluster_api_provider_sca.Prog.{Io, Handler, continue, lift, ◌>>=◌, ◌>>◌, requests}
use cluster_api_provider_sca.Prog.Bound.{Bounded, Bounded-then}
use cluster_api_provider_sca.Api.Group.{SecurityGroup}
use cluster_api_provider_sca.Scope.Cluster.{Scope, zones, tags, security_group_name}
use cluster_api_provider_sca.Service.Group.Rules.{default_policy}
use cluster_api_provider_sca.Service.Group.Ensure.{
  prune_groups, ensure_group, ensure_rules, ensure_in_zone, ensure_in_zones, ensure_each,
  ensure_security_groups,
}

-- The groups that an answer to the listing shows.
abbrev pub shown : Result (List InstanceGroup) → List InstanceGroup
shown (ok es) = es
shown _ = []

module _ {S : Type 0} (h : Handler S) (sdk : Sdk) (c : Scope) where
  prune-Bounded :
      (groups : List SecurityGroup) (es : List InstanceGroup)
      → Bounded h (length es) (prune_groups sdk c groups es)
  unfolding prune_groups
  prune-Bounded groups [] s = omega arith
  prune-Bounded groups (e ∷ es) s = let rest = prune-Bounded groups es in grind (arith, rest)

  group-Bounded :
      (zone name : String) (p q : Policy) (g : Option InstanceGroup)
      → Bounded h 1 (ensure_group sdk c zone name p q g)
  unfolding ensure_group
  group-Bounded zone name p q none s = grind (arith)
  group-Bounded zone name p q (some g) s = grind (arith)

  rules-Bounded :
      (zone : String) (sg : SecurityGroup) (g : InstanceGroup)
      → Bounded h 2 (ensure_rules sdk c zone sg g)
  unfolding ensure_rules
  rules-Bounded zone sg g s = grind (arith)

  in_zone-Bounded :
      (es : List InstanceGroup) (sg : SecurityGroup) (zone : String)
      → Bounded h 3 (ensure_in_zone sdk c es sg zone)
  unfolding ensure_in_zone
  in_zone-Bounded es sg zone =
      let name = security_group_name c.cluster sg.name in
      let found = find_first (λ group. (group.name == name) && (group.zone == zone)) es in
      let last =
        λ (p q : Policy). ensure_group sdk c zone name p q found >>= ensure_rules sdk c zone sg in
      Bounded-then h 0 3 (lift (default_policy sg.inbound))
        (λ p. lift (default_policy sg.outbound) >>= last p) (λ _. omega arith)
        (λ p.
          Bounded-then h 0 3 (lift (default_policy sg.outbound)) (last p) (λ _. omega arith)
            (λ q.
              Bounded-then h 1 2 (ensure_group sdk c zone name p q found)
                (ensure_rules sdk c zone sg) (group-Bounded zone name p q found)
                (rules-Bounded zone sg)))

  in_zones-Bounded :
      (es : List InstanceGroup) (sg : SecurityGroup) (zs : List String)
      → Bounded h (3 * length zs) (ensure_in_zones sdk c es sg zs)
  unfolding ensure_in_zones
  in_zones-Bounded es sg [] s = omega arith
  in_zones-Bounded es sg (z ∷ zs) s =
      let whole =
        Bounded-then h 3 (3 * length zs) (ensure_in_zone sdk c es sg z)
          (λ _. ensure_in_zones sdk c es sg zs) (in_zone-Bounded es sg z)
          (λ _. in_zones-Bounded es sg zs) s in
      omega (arith, whole)

  each-Bounded :
      (es : List InstanceGroup) (sgs : List SecurityGroup)
      → Bounded h
          (length sgs * (3 * length (zones sdk c.cluster sdk.instance_zones)))
          (ensure_each sdk c es sgs)
  unfolding ensure_each
  each-Bounded es [] s = omega arith
  each-Bounded es (sg ∷ sgs) s =
      let zs = zones sdk c.cluster sdk.instance_zones in
      let whole =
        Bounded-then h (3 * length zs) (length sgs * (3 * length zs))
          (ensure_in_zones sdk c es sg zs) (λ _. ensure_each sdk c es sgs)
          (in_zones-Bounded es sg zs) (λ _. each-Bounded es sgs) s in
      omega (arith, whole)

  after_listing :
      (n : ℕ) (f : List InstanceGroup → Io (Unit {0}))
      → ((es : List InstanceGroup) → Bounded h (length es + n) (f es))
      → (r : Result (List InstanceGroup)) (s : S)
      → length (requests h (continue f (wrapped "failed to list security groups" r)) s)
        ≤ length (shown r) + n
  after_listing n f rest (ok es) s = rest es s
  after_listing n f rest (err e) s = omega arith
  after_listing n f rest panicked s = omega arith

  -- A reconciliation of security groups makes one request for the groups that exist, one for each of
  -- them at most, and three at most for each wanted group in each zone.
  pub requests-ensure_groups :
      (groups : List SecurityGroup) (s : S)
      → length (requests h (ensure_security_groups sdk c groups) s)
        ≤ 1
          + (length (
                shown
                  (h
                    (instance_api (
                      list_groups_by_tags
                        (zones sdk c.cluster sdk.instance_zones)
                        (tags c.cluster)))
                    s).0)
              + length groups * (3 * length (zones sdk c.cluster sdk.instance_zones)))
  unfolding ensure_security_groups
  requests-ensure_groups groups s =
      let zs = zones sdk c.cluster sdk.instance_zones in
      let n = length groups * (3 * length zs) in
      let rest = λ (es : List InstanceGroup).
        Bounded-then h (length es) n (prune_groups sdk c groups es)
          (λ _. ensure_each sdk c es groups) (prune-Bounded groups es)
          (λ _. each-Bounded es groups) in
      let q = instance_api (list_groups_by_tags zs (tags c.cluster)) in
      let later =
        after_listing n (λ es. prune_groups sdk c groups es >> ensure_each sdk c es groups) rest
          (h q s).0 (h q s).1 in
      omega (arith, later)
