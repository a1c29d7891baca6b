-- ===== src/Service/Balancer/Acls/Laws.antt =====
-- What `ensureACL` does with an ACL.
use cluster_api_provider_sca.Prelude.{
  ◌≡◌, ℕ, String, Bool, Option, none, some, List, [], ◌∷◌, ◌==◌, arith, find_first,
}
use cluster_api_provider_sca.Result.{ok}
use cluster_api_provider_sca.Cloud.{Request, balancer_api}
use cluster_api_provider_sca.Cloud.Balancer.{Acl, list_acls, create_acl, update_acl, delete_acl}
use cluster_api_provider_sca.Prog.{Handler, changes}
use cluster_api_provider_sca.Scope.Cluster.{Scope, load_balancer_zone}
use cluster_api_provider_sca.Service.Balancer.Acls.{action_of, ensure_acl}

abbrev pub acl_listing : Scope → String → String → Request
acl_listing s frontend name = balancer_api (list_acls (load_balancer_zone s.cluster) frontend name)

-- What is asked for an ACL that should allow or deny some addresses, by the ACL that is there.
abbrev pub written : Scope → String → String → List String → Bool → ℕ → Option Acl → List Request
written s frontend name [] denied index none = []
written s frontend name [] denied index (some acl) =
    balancer_api (delete_acl (load_balancer_zone s.cluster) acl.id) ∷ []
written s frontend name (ip ∷ ips) denied index none =
    balancer_api (
      create_acl (record {
        zone = load_balancer_zone s.cluster;
        frontend = frontend;
        name = name;
        index = index;
        action = action_of denied;
        subnets = ip ∷ ips;
      }))
    ∷ []
written s frontend name (ip ∷ ips) denied index (some acl) =
    balancer_api (
      update_acl (record {
        zone = load_balancer_zone s.cluster;
        acl = acl.id;
        name = name;
        index = index;
        action = action_of denied;
        subnets = ip ∷ ips;
      }))
    ∷ []

-- Where the ACLs are listed, an ACL without addresses is deleted if it is there, and one with
-- addresses is created if it is missing and updated if it is there, even if it already holds the
-- same addresses: the comparison is of pointers. Nothing else is changed.
pub changes-ensure_acl :
    {S : Type 0} (h : Handler S) (c : Scope) (frontend name : String) (ips : List String)
    (denied : Bool) (index : ℕ) (s : S) {acls : List Acl}
    → (h (acl_listing c frontend name) s).0 ≡ ok acls
    → changes h (ensure_acl c frontend name ips denied index) s
      ≡ written c frontend name ips denied index (find_first (λ acl. acl.name == name) acls)
unfolding ensure_acl
changes-ensure_acl h c frontend name [] denied index s listed = ground arith
changes-ensure_acl h c frontend name (ip ∷ ips) denied index s listed = ground arith
