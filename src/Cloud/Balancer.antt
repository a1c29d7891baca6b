-- ===== src/Cloud/Balancer.antt =====
-- The calls of the Scaleway Load Balancer API that internal/service/scaleway makes.
use cluster_api_provider_sca.Prelude.{ℕ, String, Bool, true, false, Option, List}

pub data BalancerStatus : Type 0 where
  ready : BalancerStatus
  in_status : String → BalancerStatus

pub data AclAction : Type 0 where
  allow deny : AclAction

pub record LoadBalancer : Type 0 where
  pub id : String
  pub name : String
  pub zone : String
  pub status : BalancerStatus
  pub ips : List String

pub record BalancerIp : Type 0 where
  pub id : String
  pub ip_address : String

pub record Backend : Type 0 where
  pub id : String
  pub name : String
  pub pool : List String

pub record Frontend : Type 0 where
  pub id : String
  pub name : String
  pub inbound_port : ℕ

-- `subnets` is `Match.IPSubnet`, where there is a match.
pub record Acl : Type 0 where
  pub id : String
  pub name : String
  pub subnets : Option (List String)

pub record CreateBalancer : Type 0 where
  pub zone : String
  pub name : String
  pub type : String
  pub ip_id : Option String

pub record CreateBackend : Type 0 where
  pub zone : String
  pub balancer : String
  pub name : String
  pub forward_port : ℕ
  pub check_port : ℕ
  pub check_max_retries : ℕ

pub record CreateFrontend : Type 0 where
  pub zone : String
  pub balancer : String
  pub name : String
  pub inbound_port : ℕ
  pub backend : String

pub record CreateAcl : Type 0 where
  pub zone : String
  pub frontend : String
  pub name : String
  pub index : ℕ
  pub action : AclAction
  pub subnets : List String

pub record UpdateAcl : Type 0 where
  pub zone : String
  pub acl : String
  pub name : String
  pub index : ℕ
  pub action : AclAction
  pub subnets : List String

-- A listing may filter by a name.
pub data BalancerRequest : Type 0 where
  list_balancers : (zone name : String) → BalancerRequest
  create_balancer : CreateBalancer → BalancerRequest
  delete_balancer : (zone balancer : String) (release_ip : Bool) → BalancerRequest
  list_balancer_ips : (zone address project : String) → BalancerRequest
  list_balancer_networks : (zone balancer : String) → BalancerRequest
  attach_network : (zone balancer private_network : String) → BalancerRequest
  list_backends : (zone balancer : String) (name : Option String) → BalancerRequest
  create_backend : CreateBackend → BalancerRequest
  delete_backend : (zone backend : String) → BalancerRequest
  add_backend_servers : (zone backend : String) (ips : List String) → BalancerRequest
  remove_backend_servers : (zone backend : String) (ips : List String) → BalancerRequest
  list_frontends : (zone balancer : String) (name : Option String) → BalancerRequest
  create_frontend : CreateFrontend → BalancerRequest
  delete_frontend : (zone frontend : String) → BalancerRequest
  list_acls : (zone frontend name : String) → BalancerRequest
  create_acl : CreateAcl → BalancerRequest
  update_acl : UpdateAcl → BalancerRequest
  delete_acl : (zone acl : String) → BalancerRequest

abbrev pub BalancerAnswer : BalancerRequest → Type 0
BalancerAnswer (list_balancers zone name) = List LoadBalancer
BalancerAnswer (create_balancer request) = LoadBalancer
BalancerAnswer (list_balancer_ips zone address project) = List BalancerIp
BalancerAnswer (list_balancer_networks zone balancer) = List String
BalancerAnswer (list_backends zone balancer name) = List Backend
BalancerAnswer (create_backend request) = Backend
BalancerAnswer (list_frontends zone balancer name) = List Frontend
BalancerAnswer (create_frontend request) = Frontend
BalancerAnswer (list_acls zone frontend name) = List Acl
BalancerAnswer _ = Unit

-- The calls that change nothing.
abbrev pub reads_balancer : BalancerRequest → Bool
reads_balancer (list_balancers zone name) = true
reads_balancer (list_balancer_ips zone address project) = true
reads_balancer (list_balancer_networks zone balancer) = true
reads_balancer (list_backends zone balancer name) = true
reads_balancer (list_frontends zone balancer name) = true
reads_balancer (list_acls zone frontend name) = true
reads_balancer _ = false
