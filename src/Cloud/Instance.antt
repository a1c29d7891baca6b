-- ===== src/Cloud/Instance.antt =====
-- The calls of the Scaleway Instance and Marketplace APIs that internal/service/scaleway makes:
-- the requests with the fields that the code sets, and the answers with the fields that it reads.
use cluster_api_provider_sca.Prelude.{ℕ, String, Bool, true, false, Option, List}

pub data ServerState : Type 0 where
  stopped : ServerState
  in_state : String → ServerState

pub data Policy : Type 0 where
  accept drop : Policy
  other_policy : String → Policy

pub data Protocol : Type 0 where
  any tcp udp icmp : Protocol
  other_protocol : String → Protocol

pub data Direction : Type 0 where
  inbound outbound : Direction
  other_direction : String → Direction

pub data VolumeType : Type 0 where
  l_ssd b_ssd : VolumeType

pub data ServerAction : Type 0 where
  poweron terminate : ServerAction

pub record InstanceIp : Type 0 where
  pub id : String
  pub address : String
  pub dynamic : Bool

pub record Volume : Type 0 where
  pub id : String
  pub boot : Bool

pub record Server : Type 0 where
  pub id : String
  pub name : String
  pub zone : String
  pub state : ServerState
  pub public_ip : Option InstanceIp
  pub volumes : List (String × Volume)

pub record PrivateNic : Type 0 where
  pub id : String
  pub private_network_id : String

pub record InstanceGroup : Type 0 where
  pub id : String
  pub name : String
  pub zone : String
  pub inbound_default_policy : Policy
  pub outbound_default_policy : Policy
  pub enable_default_security : Bool

-- `ip_range` is the text of the range, `IPNet.String()`.
pub record InstanceRule : Type 0 where
  pub direction : Direction
  pub protocol : Protocol
  pub action : Policy
  pub ip_range : String
  pub dest_port_from : Option ℕ
  pub dest_port_to : Option ℕ

pub record RequestRule : Type 0 where
  pub action : Policy
  pub protocol : Protocol
  pub direction : Direction
  pub ip_range : String
  pub dest_port_from : Option ℕ
  pub dest_port_to : Option ℕ
  pub position : ℕ

pub record VolumeTemplate : Type 0 where
  pub size : ℕ
  pub volume_type : VolumeType
  pub boot : Bool

pub record CreateServer : Type 0 where
  pub zone : String
  pub name : String
  pub commercial_type : String
  pub dynamic_ip_required : Bool
  pub routed_ip_enabled : Bool
  pub image : String
  pub security_group : Option String
  pub volumes : List (String × VolumeTemplate)
  pub public_ip : Option String

pub record CreateGroup : Type 0 where
  pub zone : String
  pub name : String
  pub tags : List String
  pub inbound_default_policy : Policy
  pub outbound_default_policy : Policy
  pub enable_default_security : Bool
  pub stateful : Bool

pub record UpdateGroup : Type 0 where
  pub zone : String
  pub id : String
  pub inbound_default_policy : Policy
  pub outbound_default_policy : Policy
  pub enable_default_security : Bool

-- The arguments are a zone first, then what the request's fields hold.
pub data InstanceRequest : Type 0 where
  list_servers : (zone name : String) → InstanceRequest
  list_ips : (zone : String) (tags : List String) → InstanceRequest
  create_ip : (zone : String) (tags : List String) → InstanceRequest
  delete_ip : (zone ip : String) → InstanceRequest
  create_server : CreateServer → InstanceRequest
  delete_server : (zone server : String) → InstanceRequest
  server_action : (zone server : String) (action : ServerAction) → InstanceRequest
  list_private_nics : (zone server : String) → InstanceRequest
  create_private_nic : (zone server private_network : String) → InstanceRequest
  get_user_data : (zone server : String) → InstanceRequest
  set_user_data : (zone server key : String) (content : String) → InstanceRequest
  detach_volume : (zone volume : String) → InstanceRequest
  delete_volume : (zone volume : String) → InstanceRequest
  list_groups_by_name : (zone name : String) → InstanceRequest
  list_groups_by_tags : (zones tags : List String) → InstanceRequest
  create_group : CreateGroup → InstanceRequest
  update_group : UpdateGroup → InstanceRequest
  delete_group : (zone group : String) → InstanceRequest
  list_rules : (zone group : String) → InstanceRequest
  set_rules : (zone group : String) (rules : List RequestRule) → InstanceRequest
  get_local_image : (commercial_type zone label : String) → InstanceRequest

abbrev pub InstanceAnswer : InstanceRequest → Type 0
InstanceAnswer (list_servers zone name) = List Server
InstanceAnswer (list_ips zone tags) = List InstanceIp
InstanceAnswer (create_ip zone tags) = InstanceIp
InstanceAnswer (create_server request) = Server
InstanceAnswer (list_private_nics zone server) = List PrivateNic
InstanceAnswer (create_private_nic zone server private_network) = PrivateNic
InstanceAnswer (get_user_data zone server) = List (String × String)
InstanceAnswer (list_groups_by_name zone name) = List InstanceGroup
InstanceAnswer (list_groups_by_tags zones tags) = List InstanceGroup
InstanceAnswer (create_group request) = InstanceGroup
InstanceAnswer (list_rules zone group) = List InstanceRule
InstanceAnswer (get_local_image commercial_type zone label) = String
InstanceAnswer _ = Unit

-- The calls that change nothing.
abbrev pub reads_instance : InstanceRequest → Bool
reads_instance (list_servers zone name) = true
reads_instance (list_ips zone tags) = true
reads_instance (list_private_nics zone server) = true
reads_instance (get_user_data zone server) = true
reads_instance (list_groups_by_name zone name) = true
reads_instance (list_groups_by_tags zones tags) = true
reads_instance (list_rules zone group) = true
reads_instance (get_local_image commercial_type zone label) = true
reads_instance _ = false
