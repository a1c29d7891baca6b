-- ===== src/Service/Group/Ensure/Laws.antt =====
-- The groups that a deletion of a cluster deletes.
use cluster_api_provider_sca.Prelude.{◌≡◌, refl, ap, ◌∙◌, true, false, List, [], ◌∷◌, arith}
use mathlib.Core.List.{append-nil}
use cluster_api_provider_sca.Result.{ok}
use cluster_api_provider_sca.Sdk.{Sdk}
use cluster_api_provider_sca.Cloud.{Request, instance_api}
use cluster_api_provider_sca.Cloud.Instance.{InstanceGroup, delete_group, list_groups_by_tags}
use cluster_api_provider_sca.Prog.{Handler, result, changes, pure, ◌>>=◌}
use cluster_api_provider_sca.Prog.Laws.{bind_ok}
use cluster_api_provider_sca.Api.Group.{SecurityGroup}
use cluster_api_provider_sca.Scope.Cluster.{Scope, zones, tags}
use cluster_api_provider_sca.Service.Group.Ensure.{
  is_wanted, prune_groups, ensure_each, ensure_security_groups, delete,
}

abbrev deletion : InstanceGroup → Request
deletion group = instance_api (delete_group group.zone group.id)

-- The requests that delete the groups that are not wanted, in the order listed.
abbrev pub unwanted : Sdk → Scope → List SecurityGroup → List InstanceGroup → List Request
unwanted sdk c groups [] = []
unwanted sdk c groups (existing ∷ rest) =
    let later = unwanted sdk c groups rest in
    elim (is_wanted sdk c groups existing) [ true ↦ later | false ↦ deletion existing ∷ later ]

prune_groups_ok :
    {S : Type 0} (h : Handler S) (sdk : Sdk) (c : Scope) (groups : List SecurityGroup)
    (existing : List InstanceGroup) (s : S)
    → result h (prune_groups sdk c groups existing) s ≡ ok tt
    → changes h (prune_groups sdk c groups existing) s ≡ unwanted sdk c groups existing
unfolding prune_groups
prune_groups_ok h sdk c groups [] s done = refl
prune_groups_ok h sdk c groups (e ∷ rest) s done = ground (
  arith,
  prune_groups_ok h sdk c groups rest s,
  prune_groups_ok h sdk c groups rest (h (deletion e) s).1,
)

abbrev pub group_listing : Sdk → Scope → Request
group_listing sdk c =
    instance_api (list_groups_by_tags (zones sdk c.cluster sdk.instance_zones) (tags c.cluster))

abbrev pub delete_all : List InstanceGroup → List Request
delete_all [] = []
delete_all (group ∷ groups) = deletion group ∷ delete_all groups

unwanted-nil :
    (sdk : Sdk) (c : Scope) (existing : List InstanceGroup)
    → unwanted sdk c [] existing ≡ delete_all existing
unwanted-nil sdk c [] = refl
unwanted-nil sdk c (e ∷ rest) = ap (λ l. deletion e ∷ l) (unwanted-nil sdk c rest)

-- A deletion that succeeds deletes every group that is listed under the tags of the cluster, in
-- the order listed, and changes nothing else.
pub changes-delete_groups :
    {S : Type 0} (h : Handler S) (sdk : Sdk) (c : Scope) (s : S) {existing : List InstanceGroup}
    → (h (group_listing sdk c) s).0 ≡ ok existing
    → result h (delete sdk c) s ≡ ok tt
    → changes h (delete sdk c) s ≡ delete_all existing
unfolding delete ensure_security_groups ensure_each
changes-delete_groups h sdk c s {existing} listed done =
    let t = (h (group_listing sdk c) s).1 in
    let run : result h (prune_groups sdk c [] existing >>= λ _. pure tt) t ≡ ok tt =
      rw (listed, result) at done in
    let parts = bind_ok h (prune_groups sdk c [] existing) (λ _. pure tt) t run in
    rw (listed, changes)
      (parts.changed
        ∙ append-nil _
        ∙ prune_groups_ok h sdk c [] existing t parts.first
        ∙ unwanted-nil sdk c existing)
