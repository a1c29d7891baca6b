-- ===== src/Webhook/Network.antt =====
-- `validateNetworkSpec` and `validateSecurityGroupPolicy` of api/v1beta1/scalewaycluster_webhook.go.
-- The outer result tells a panic; the option is the `*field.Error`.
pub mod Laws
pub mod Rules
use cluster_api_provider_sca.Prelude.{
  ℕ, ◌+◌, String, Bool, true, false, ◌&&◌, ◌||◌, Option, none, some, List, [], ◌∷◌, ◌++◌, ◌==◌,
  is_some, contains_func, if◌then◌else◌,
}
use cluster_api_provider_sca.Result.{Result, ok, err, panicked, Error}
use cluster_api_provider_sca.Sdk.{Sdk}
use cluster_api_provider_sca.Cloud.Instance.{Protocol, any, icmp, tcp, udp, other_protocol}
use cluster_api_provider_sca.Api.Group.{
  GroupRule, GroupPolicy, SecurityGroup, to_instance, to_instance_action, to_instance_policy,
}
use cluster_api_provider_sca.Api.Ports.{to_range}
use cluster_api_provider_sca.Api.Cluster.{NetworkSpec, PublicGatewaySpec, PrivateNetworkSpec}
use cluster_api_provider_sca.Webhook.Field.{Segment, child, index, FieldError, invalid}

abbrev pub Check : Type 0
Check = Result (Option FieldError)

-- `if err := f(); err != nil { return err }`, and then the rest
infixl 5 ◌then_check◌
abbrev pub ◌then_check◌ : Check → Check → Check
ok none then_check rest = rest
ok (some e) then_check rest = ok (some e)
err e then_check rest = err e
panicked then_check rest = panicked

abbrev pub passes : Check
passes = ok none

abbrev pub fails : List Segment → String → Check
fails path detail = ok (some (invalid path detail))

-- `if _, err := f(); err != nil { return field.Invalid(path, …, err.Error()) }`
abbrev pub converts {ℓ} : {A : Type ℓ} → Result A → List Segment → Check
converts (ok a) path = passes
converts (err e) path = fails path "invalid value"
converts panicked path = panicked

abbrev without_ports : Protocol → Bool
without_ports any = true
without_ports icmp = true
without_ports _ = false

module _ (sdk : Sdk) where
  check_protocol_ports : Result Protocol → Option String → List Segment → Check
  check_protocol_ports (ok p) ports path =
      if without_ports p && is_some ports
      then fails path "ports must not be set when using ANY or ICMP protocols"
      else passes
  check_protocol_ports (err e) ports path = passes
  check_protocol_ports panicked ports path = passes

  check_ip_range : Option String → List Segment → Check
  check_ip_range none path = passes
  check_ip_range (some range) path = converts (sdk.parse_cidr range) path

  -- One round of the loop over the rules.
  unfoldable pub validate_rule : GroupRule → List Segment → Check
  unfolding check_protocol_ports check_ip_range
  validate_rule rule path =
      converts (to_instance_action (some rule.action)) (path ++ child "action" ∷ [])
      then_check converts (to_instance rule.protocol) (path ++ child "protocol" ∷ [])
      then_check converts (to_range rule.ports) (path ++ child "ports" ∷ [])
      then_check check_protocol_ports (to_instance rule.protocol) rule.ports
          (path ++ child "ports" ∷ [])
      then_check check_ip_range rule.ip_range (path ++ child "ipRange" ∷ [])

  unfoldable pub validate_rules : ℕ → List GroupRule → List Segment → Check
  validate_rules i [] path = passes
  validate_rules i (rule ∷ rules) path =
      let rest = validate_rules (i + 1) rules path in
      validate_rule rule (path ++ child "rules" ∷ index i ∷ []) then_check rest

  -- `validateSecurityGroupPolicy`
  unfoldable pub validate_security_group_policy : Option GroupPolicy → List Segment → Check
  validate_security_group_policy none path = passes
  validate_security_group_policy (some p) path =
      converts (to_instance_policy p.default) (path ++ child "default" ∷ [])
      then_check validate_rules 0 p.rules path

  -- The loop over the groups, with the names met before.
  unfoldable pub validate_groups : ℕ → List SecurityGroup → List String → Check
  validate_groups i [] names = passes
  validate_groups i (group ∷ groups) names =
      let path = child "spec" ∷ child "network" ∷ child "securityGroups" ∷ index i ∷ [] in
      let rest = validate_groups (i + 1) groups (group.name ∷ names) in
      if contains_func (λ n. n == group.name) names
      then fails path "duplicate name"
      else validate_security_group_policy group.inbound (path ++ child "inbound" ∷ [])
        then_check validate_security_group_policy group.outbound (path ++ child "outbound" ∷ [])
        then_check rest

abbrev pub gateway_path : String → List Segment
gateway_path name = child "spec" ∷ child "network" ∷ child "publicGateway" ∷ child name ∷ []

-- A zone must be one, and lie in a region: the check of a zone that the three validations share.
unfoldable pub zone_in_region : Sdk → String → String → List Segment → String → Check
zone_in_region sdk region zone path detail = elim (sdk.parse_zone zone) [
  | err e ↦ fails path "invalid zone"
  | panicked ↦ panicked
  | ok z ↦ elim (sdk.zone_region z) [
    | err e ↦ fails path "zone without a region"
    | panicked ↦ panicked
    | ok r ↦ if r == region then passes else fails path detail
  ]
]

abbrev check_gateway_zone : Sdk → String → Option String → Check
check_gateway_zone sdk region none = passes
check_gateway_zone sdk region (some zone) =
    zone_in_region sdk region zone (gateway_path "zone")
      "public gateway must be in the cluster region"

-- Without a zone the code follows the nil pointer to print it.
abbrev check_zone_given : Option String → Check
check_zone_given (some zone) = passes
check_zone_given none = panicked

-- A gateway that exists has no type and no address of its own, and its zone is needed.
unfoldable pub check_gateway_id : PublicGatewaySpec → Check
check_gateway_id g = elim g.id [
  | none ↦ passes
  | some id ↦
      if is_some g.type
      then fails (gateway_path "type") "type should not be specified because id is set"
      else if is_some g.ip
      then fails (gateway_path "ip") "ip should not be specified because id is set"
      else check_zone_given g.zone
]

unfoldable pub check_subnet : Option PrivateNetworkSpec → Check
check_subnet none = passes
check_subnet (some n) =
    if is_some n.subnet && is_some n.id
    then fails (child "spec" ∷ child "network" ∷ child "privateNetwork" ∷ child "subnet" ∷ [])
        "not compatible with an existing PrivateNetwork"
    else passes

-- The checks on the Public Gateway. That of the subnet stands among them.
unfoldable pub validate_gateway : Sdk → String → NetworkSpec → Check
unfolding zone_in_region check_gateway_id check_subnet
validate_gateway sdk region n = elim n.public_gateway [
  | none ↦ passes
  | some g ↦
      check_gateway_zone sdk region g.zone
      then_check check_gateway_id g
      then_check check_subnet n.private_network
]

-- `validateNetworkSpec`
unfoldable pub validate_network_spec : Sdk → String → Option NetworkSpec → Check
validate_network_spec sdk region none = passes
validate_network_spec sdk region (some n) =
    validate_gateway sdk region n then_check validate_groups sdk 0 n.security_groups []
