-- ===== src/Api/Group.antt =====
-- Security groups of api/v1beta1/scalewaycluster_types.go, and the conversions of their actions and
-- protocols to those of the Instance API. An action or a protocol is a Go string of any value.
use cluster_api_provider_sca.Prelude.{String, Option, none, some, List, ◌==◌, if◌then◌else◌}
use cluster_api_provider_sca.Result.{Result, ok, err, other}
use cluster_api_provider_sca.Cloud.Instance.{Policy, accept, drop, Protocol, any, tcp, udp, icmp}

pub record GroupRule : Type 0 where
  pub action : String
  pub protocol : Option String
  pub ports : Option String
  pub ip_range : Option String

pub record GroupPolicy : Type 0 where
  pub default : Option String
  pub rules : List GroupRule

pub record SecurityGroup : Type 0 where
  pub name : String
  pub inbound : Option GroupPolicy
  pub outbound : Option GroupPolicy

-- `ToInstance`
unfoldable pub to_instance : Option String → Result Protocol
to_instance none = ok any
to_instance (some s) =
    if s == "ANY"
    then ok any
    else if s == "TCP"
    then ok tcp
    else if s == "UDP"
    then ok udp
    else if s == "ICMP"
    then ok icmp
    else err (other "unknown security group protocol")

-- `ToInstancePolicy`
unfoldable pub to_instance_policy : Option String → Result Policy
to_instance_policy none = ok accept
to_instance_policy (some s) =
    if s == "Accept"
    then ok accept
    else if s == "Drop"
    then ok drop
    else err (other "unknown action")

-- `ToInstanceAction`
unfoldable pub to_instance_action : Option String → Result Policy
to_instance_action none = ok accept
to_instance_action (some s) =
    if s == "Accept"
    then ok accept
    else if s == "Drop"
    then ok drop
    else err (other "unknown action")
