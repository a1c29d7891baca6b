-- ===== src/Service/Balancer/Acls.antt =====
-- The ACLs of the control plane's frontend: `ensureACL` and `ensureACLs`.
pub mod Laws
pub mod Safe
pub mod Live
use cluster_api_provider_sca.Prelude.{
  ℕ, String, Bool, true, false, ◌&&◌, not, Option, none, some, List, [], ◌∷◌, ◌||◌, if◌then◌else◌,
  is_none,
}
use cluster_api_provider_sca.Result.{Result, ok, wrapped}
use cluster_api_provider_sca.Sdk.{Sdk}
use cluster_api_provider_sca.Cloud.{balancer_api}
use cluster_api_provider_sca.Cloud.Balancer.{
  Acl, AclAction, allow, deny, Frontend, create_acl, update_acl, delete_acl,
}
use cluster_api_provider_sca.Cloud.Network.{Gateway}
use cluster_api_provider_sca.Prog.{Io, ask, pure, lift, wrapping, or_nil, ◌>>=◌, ◌>>◌}
use cluster_api_provider_sca.Client.Balancer.{find_load_balancer_acl_by_name}
use cluster_api_provider_sca.Client.Network.{find_gateways_by_private_network_id}
use cluster_api_provider_sca.Scope.Cluster.{
  Scope, and_then, zones, load_balancer_zone, has_private_network,
}

-- `slices.Equal(scw.StringSlicePtr(ips), subnets)`: both are slices of pointers, and a pointer that
-- was just allocated differs from every other one. So only empty slices are equal.
unfoldable pub same_pointers : List String → List String → Bool
same_pointers [] [] = true
same_pointers _ _ = false

-- `acl.Match == nil || !slices.Equal(…)`
unfoldable pub differs : List String → Option (List String) → Bool
unfolding same_pointers
differs ips none = true
differs ips (some subnets) = not (same_pointers ips subnets)

abbrev action_of : Bool → AclAction
action_of true = deny
action_of false = allow

abbrev empty : List String → Bool
empty [] = true
empty (ip ∷ ips) = false

module _ (zone : String) where
  -- An ACL without addresses is deleted, if it is there.
  unfoldable pub delete_if_there : Option Acl → Io (Unit {0})
  delete_if_there none = pure tt
  delete_if_there (some acl) = ask (balancer_api (delete_acl zone acl.id))

  -- An ACL with addresses is created, or updated where it differs.
  unfoldable pub write_acl :
      String → String → List String → AclAction → ℕ → Option Acl → Io (Unit {0})
  unfolding differs
  write_acl frontend name ips action index none = ask (
      balancer_api (
        create_acl (record {
          zone = zone;
          frontend = frontend;
          name = name;
          index = index;
          action = action;
          subnets = ips;
        })))
  write_acl frontend name ips action index (some acl) =
      if differs ips acl.subnets
      then ask (
          balancer_api (
            update_acl (record {
              zone = zone;
              acl = acl.id;
              name = name;
              index = index;
              action = action;
              subnets = ips;
            })))
      else pure tt

-- `ensureACL`
unfoldable pub ensure_acl : Scope → String → String → List String → Bool → ℕ → Io (Unit {0})
unfolding delete_if_there write_acl find_load_balancer_acl_by_name
ensure_acl s frontend name ips denied index = do
  let zone = load_balancer_zone s.cluster
  acl ← or_nil (find_load_balancer_acl_by_name zone frontend name)
  if empty ips
      then delete_if_there zone acl
      else write_acl zone frontend name ips (action_of denied) index acl

-- The allowed ranges of the cluster, where there are some.
unfoldable pub allowed_ranges : Scope → List String
allowed_ranges s = elim s.cluster.spec.control_plane_load_balancer [
  | none ↦ []
  | some b ↦ b.allowed_ranges
]

unfoldable pub deny_all : List String → List String
deny_all [] = []
deny_all (range ∷ ranges) = "0.0.0.0/0" ∷ "::/0" ∷ []

unfoldable pub gateway_addresses : List Gateway → List String
gateway_addresses [] = []
gateway_addresses (gateway ∷ gateways) =
    let rest = gateway_addresses gateways in
    elim gateway.ip [ none ↦ rest | some ip ↦ ip.address ∷ rest ]

module _ (sdk : Sdk) (s : Scope) where
  -- The second step of `ensureACLs`: the Public Gateways of the Private Network.
  ensure_gateway_acl : String → Option String → Io (Unit {0})
  unfolding gateway_addresses
  ensure_gateway_acl frontend none = pure tt
  ensure_gateway_acl frontend (some pn_id) =
      if has_private_network s.cluster
      then (do
        gateways ← find_gateways_by_private_network_id (zones sdk s.cluster sdk.gateway_zones) pn_id
        ensure_acl s frontend "public-gateway" (gateway_addresses gateways) false 2)
      else pure tt

  -- `ensureACLs`
  unfoldable pub ensure_acls : Frontend → Option String → Io (Unit {0})
  unfolding ensure_gateway_acl allowed_ranges deny_all
  ensure_acls frontend pn_id = do
    wrapping (ensure_acl s frontend.id "allowed-ranges" (allowed_ranges s) false 1)
        (wrapped "failed to set allowed-ranges ACL")
    ensure_gateway_acl frontend.id pn_id
    ensure_acl s frontend.id "deny-all" (deny_all (allowed_ranges s)) true 4
