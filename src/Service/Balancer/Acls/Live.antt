-- ===== src/Service/Balancer/Acls/Live.antt =====
-- When making ACLs succeeds, internal/service/scaleway/loadbalancer/loadbalancer.go.
use cluster_api_provider_sca.Prelude.{
  Option, arith, some, none, String, Bool, true, false, ℕ, List, [], ◌∷◌,
}
use cluster_api_provider_sca.Result.{wrapped}
use cluster_api_provider_sca.Sdk.{Sdk}
use cluster_api_provider_sca.Cloud.Balancer.{Frontend}
use cluster_api_provider_sca.Prog.{Handler, ◌>>◌, wrapping}
use cluster_api_provider_sca.Prog.Runs.{Runs, Runs-bind, NoError, Any, IsWilling}
use cluster_api_provider_sca.Scope.Cluster.{Scope}
use cluster_api_provider_sca.Client.Found.{wrapping_answered}
use cluster_api_provider_sca.Client.Balancer.{find_load_balancer_acl_by_name}
use cluster_api_provider_sca.Client.Network.{find_gateways_by_private_network_id}
use cluster_api_provider_sca.Service.Balancer.Acls.{
  ensure_acl, ensure_acls, ensure_gateway_acl, delete_if_there, write_acl, allowed_ranges, deny_all,
}

module _ {S : Type 0} (h : Handler S) (answers : IsWilling h) (c : Scope) where
  acl-Runs :
      (frontend name : String) (ips : List String) (denied : Bool) (index : ℕ)
      → Runs h NoError Any (ensure_acl c frontend name ips denied index)
  unfolding ensure_acl find_load_balancer_acl_by_name delete_if_there write_acl
  acl-Runs frontend name [] denied index s = grind (arith, answers)
  acl-Runs frontend name (ip ∷ ips) denied index s = grind (arith, answers)

  gateway_acl-Runs :
      (sdk : Sdk) (frontend : String) (id : Option String)
      → Runs h NoError Any (ensure_gateway_acl sdk c frontend id)
  unfolding ensure_gateway_acl find_gateways_by_private_network_id
  gateway_acl-Runs sdk frontend none s = tt
  gateway_acl-Runs sdk frontend (some id) s = grind (arith, answers, acl-Runs)

  pub acls-Succeeds :
      (sdk : Sdk) (frontend : Frontend) (id : Option String)
      → Runs h NoError Any (ensure_acls sdk c frontend id)
  unfolding ensure_acls
  acls-Succeeds sdk frontend id =
      let last = ensure_acl c frontend.id "deny-all" (deny_all (allowed_ranges c)) true 4 in
      let middle = ensure_gateway_acl sdk c frontend.id id in
      let first = ensure_acl c frontend.id "allowed-ranges" (allowed_ranges c) false 1 in
      Runs-bind h NoError Any Any (wrapping first (wrapped "failed to set allowed-ranges ACL"))
        (λ _. middle >> last)
        (wrapping_answered h Any "failed to set allowed-ranges ACL" first
          (acl-Runs frontend.id "allowed-ranges" (allowed_ranges c) false 1))
        (λ _ _.
          Runs-bind h NoError Any Any middle (λ _. last) (gateway_acl-Runs sdk frontend.id id)
            (λ _ _. acl-Runs frontend.id "deny-all" (deny_all (allowed_ranges c)) true 4))
