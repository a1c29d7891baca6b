-- ===== src/Service/Group/Rules.antt =====
-- The rules of a security group: `defaultPolicy`, `compareRules` and `toInstanceRequestRule`.
pub mod Laws
pub mod Safe
pub mod Live
use cluster_api_provider_sca.Prelude.{
  ℕ, String, Bool, true, false, ◌&&◌, not, Option, none, some, List, [], ◌∷◌, ◌+◌, ◌%◌, ◌^◌, ◌==◌,
  nat_eq, option_eq, length, if◌then◌else◌,
}
use cluster_api_provider_sca.Result.{Result, ok, err, panicked, ◌>>=◌}
use cluster_api_provider_sca.Sdk.{Sdk}
use cluster_api_provider_sca.Cloud.Instance.{
  Policy, accept, drop, other_policy, Protocol, any, tcp, udp, icmp, other_protocol, Direction,
  InstanceRule, RequestRule,
}
use cluster_api_provider_sca.Api.Group.{
  GroupRule, GroupPolicy, to_instance, to_instance_action, to_instance_policy,
}
use cluster_api_provider_sca.Api.Ports.{to_range}

-- `==` on policies and protocols
abbrev pub policy_eq : Policy → Policy → Bool
policy_eq accept accept = true
policy_eq drop drop = true
policy_eq (other_policy a) (other_policy b) = a == b
policy_eq _ _ = false

abbrev pub protocol_eq : Protocol → Protocol → Bool
protocol_eq any any = true
protocol_eq tcp tcp = true
protocol_eq udp udp = true
protocol_eq icmp icmp = true
protocol_eq (other_protocol a) (other_protocol b) = a == b
protocol_eq _ _ = false

-- `defaultPolicy`
unfoldable pub default_policy : Option GroupPolicy → Result Policy
default_policy none = ok accept
default_policy (some p) = elim p.default [
  | none ↦ ok accept
  | some action ↦ to_instance_policy (some action)
]

abbrev pub ip_range_of : Option String → String
ip_range_of none = "0.0.0.0/0"
ip_range_of (some range) = range

-- One round of the loop of `compareRules`: whether the rules agree. The tests come in the order of
-- the code, and a test that fails ends the round before a later conversion can fail.
unfoldable pub compare_rule : GroupRule → InstanceRule → Result Bool
compare_rule a b = do
  protocol ← to_instance a.protocol
  if not (protocol_eq protocol b.protocol) then ok false else do
    action ← to_instance_action (some a.action)
    if not (policy_eq action b.action)
        then ok false
        else if not (ip_range_of a.ip_range == b.ip_range)
        then ok false
        else do
          ports ← to_range a.ports
          if not (option_eq nat_eq ports.0 b.dest_port_from)
              then ok false
              else if not (option_eq nat_eq ports.1 b.dest_port_to)
              then ok false
              else ok true

-- The loop of `compareRules`, over lists of one length.
unfoldable pub compare_rounds : List GroupRule → List InstanceRule → Result Bool
compare_rounds [] _ = ok true
compare_rounds (a ∷ as') [] = panicked
compare_rounds (a ∷ as') (b ∷ bs) =
    let rest = compare_rounds as' bs in
    elim (compare_rule a b) [
      | ok true ↦ rest
      | ok false ↦ ok false
      | err e ↦ err e
      | panicked ↦ panicked
    ]

-- `compareRules`
unfoldable pub compare_rules : List GroupRule → List InstanceRule → Result Bool
unfolding compare_rounds
compare_rules a b = if nat_eq (length a) (length b) then compare_rounds a b else ok false

-- `toInstanceRequestRule`
unfoldable pub to_instance_request_rule : Sdk → ℕ → GroupRule → Direction → Result RequestRule
to_instance_request_rule sdk position rule direction = do
  action ← to_instance_action (some rule.action)
  protocol ← to_instance rule.protocol
  ports ← to_range rule.ports
  net ← sdk.parse_cidr (ip_range_of rule.ip_range)
  ok (record {
    action = action;
    protocol = protocol;
    direction = direction;
    ip_range = net;
    dest_port_from = ports.0;
    dest_port_to = ports.1;
    position = position;
  })

-- The loop over the rules of one direction, from the index `i`: `uint32(i+1)` is the position.
unfoldable pub request_rules : Sdk → ℕ → List GroupRule → Direction → Result (List RequestRule)
unfolding to_instance_request_rule
request_rules sdk i [] direction = ok []
request_rules sdk i (rule ∷ rules) direction = do
  new ← to_instance_request_rule sdk ((i + 1) % 2 ^ 32) rule direction
  rest ← request_rules sdk (i + 1) rules direction
  ok (new ∷ rest)
