-- ===== src/Service/Balancer/Members.antt =====
-- What a Load Balancer is made of: `getOrCreateLB`, `ensurePrivateNetwork`, `ensureBackend` and
-- `ensureFrontend`.
pub mod Backends
pub mod Frontends
pub mod Safe
pub mod Live
use cluster_api_provider_sca.Prelude.{
  ℕ, String, Bool, true, false, Option, none, some, List, [], ◌∷◌, ◌==◌, contains_func,
  if◌then◌else◌,
}
use cluster_api_provider_sca.Result.{Result, ok, wrapped}
use cluster_api_provider_sca.Cloud.{balancer_api}
use cluster_api_provider_sca.Cloud.Balancer.{
  LoadBalancer, Backend, Frontend, create_balancer, list_balancer_networks, attach_network,
  list_backends, create_backend, delete_backend, list_frontends, create_frontend, delete_frontend,
}
use cluster_api_provider_sca.Prog.{Io, ask, pure, lift, wrapping, or_nil, ◌>>=◌, ◌>>◌}
use cluster_api_provider_sca.Client.Balancer.{find_load_balancer_by_name, find_load_balancer_ip}
use cluster_api_provider_sca.Scope.Cluster.{
  Scope, and_then, name, load_balancer_type, load_balancer_zone,
}

abbrev pub control_plane_backend_name : String
control_plane_backend_name = "control-plane"

abbrev pub control_plane_frontend_name : String
control_plane_frontend_name = "control-plane"

abbrev pub backend_control_plane_port : ℕ
backend_control_plane_port = 6443

abbrev pub default_frontend_control_plane_port : ℕ
default_frontend_control_plane_port = 6443

-- The address that the user gave for the Load Balancer.
abbrev pub given_ip : Scope → Option String
given_ip s = and_then s.cluster.spec.control_plane_load_balancer (λ b. b.ip)

module _ (s : Scope) (zone : String) where
  find_ip_id : Option String → Io (Option String)
  find_ip_id none = pure none
  find_ip_id (some ip) = do
    found ← wrapping (find_load_balancer_ip s.client zone ip) (wrapped "failed to find IP")
    pure (some found.id)

  unfoldable pub create_lb_if_nil : Option LoadBalancer → Io LoadBalancer
  unfolding find_ip_id
  create_lb_if_nil (some balancer) = pure balancer
  create_lb_if_nil none = do
    ip_id ← find_ip_id (given_ip s)
    ask (
        balancer_api (
          create_balancer (record {
            zone = zone;
            name = name s.cluster;
            type = load_balancer_type s.cluster;
            ip_id = ip_id;
          })))

  -- `getOrCreateLB`
  unfoldable pub get_or_create_lb : Io LoadBalancer
  unfolding create_lb_if_nil
  get_or_create_lb = do
    found ← or_nil (find_load_balancer_by_name zone (name s.cluster))
    create_lb_if_nil found

module _ (balancer : LoadBalancer) where
  -- `ensurePrivateNetwork`
  unfoldable pub ensure_private_network : Option String → Io (Unit {0})
  ensure_private_network none = pure tt
  ensure_private_network (some pn_id) = do
    networks ← ask (balancer_api (list_balancer_networks balancer.zone balancer.id))
    if contains_func (λ network. network == pn_id) networks
        then pure tt
        else ask (balancer_api (attach_network balancer.zone balancer.id pn_id))

  -- The loop of `ensureBackend`: the last backend of the name is kept, every other name goes.
  unfoldable pub prune_backends : List Backend → Option Backend → Io (Option Backend)
  prune_backends [] kept = pure kept
  prune_backends (candidate ∷ rest) kept = elim (candidate.name == control_plane_backend_name) [
    | true ↦ prune_backends rest (some candidate)
    | false ↦
        ask (balancer_api (delete_backend balancer.zone candidate.id)) >> prune_backends rest kept
  ]

  create_backend_if_nil : Option Backend → Io Backend
  create_backend_if_nil (some backend) = pure backend
  create_backend_if_nil none = ask (
      balancer_api (
        create_backend (record {
          zone = balancer.zone;
          balancer = balancer.id;
          name = control_plane_backend_name;
          forward_port = backend_control_plane_port;
          check_port = backend_control_plane_port;
          check_max_retries = 5;
        })))

  -- `ensureBackend`
  unfoldable pub ensure_backend : Io Backend
  unfolding create_backend_if_nil
  ensure_backend = do
    backends ← ask (balancer_api (list_backends balancer.zone balancer.id none))
    kept ← prune_backends backends none
    create_backend_if_nil kept

  -- The loop of `ensureFrontend`.
  unfoldable pub prune_frontends : List Frontend → Option Frontend → Io (Option Frontend)
  prune_frontends [] kept = pure kept
  prune_frontends (candidate ∷ rest) kept = elim (candidate.name == control_plane_frontend_name) [
    | true ↦ prune_frontends rest (some candidate)
    | false ↦
        ask (balancer_api (delete_frontend balancer.zone candidate.id)) >> prune_frontends rest kept
  ]

  create_frontend_if_nil : Backend → Option Frontend → Io Frontend
  create_frontend_if_nil backend (some frontend) = pure frontend
  create_frontend_if_nil backend none = ask (
      balancer_api (
        create_frontend (record {
          zone = balancer.zone;
          balancer = balancer.id;
          name = control_plane_frontend_name;
          inbound_port = default_frontend_control_plane_port;
          backend = backend.id;
        })))

  -- `ensureFrontend`
  unfoldable pub ensure_frontend : Backend → Io Frontend
  unfolding create_frontend_if_nil
  ensure_frontend backend = do
    frontends ← ask (balancer_api (list_frontends balancer.zone balancer.id none))
    kept ← prune_frontends frontends none
    create_frontend_if_nil backend kept
