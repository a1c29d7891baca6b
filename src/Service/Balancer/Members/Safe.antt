-- ===== src/Service/Balancer/Members/Safe.antt =====
-- Panics of making the parts of a Load Balancer,
-- internal/service/scaleway/loadbalancer/loadbalancer.go.
use cluster_api_provider_sca.Prelude.{Option, arith, some, none, String, List, [], ◌∷◌}
use cluster_api_provider_sca.Result.{Result}
use cluster_api_provider_sca.Cloud.Balancer.{LoadBalancer, Backend, Frontend}
use cluster_api_provider_sca.Prog.{Handler}
use cluster_api_provider_sca.Prog.Laws.{result-bind}
use cluster_api_provider_sca.Prog.Runs.{Runs, AnyError, Any, IsCalm}
use cluster_api_provider_sca.Scope.Cluster.{Scope}
use cluster_api_provider_sca.Client.Balancer.{find_load_balancer_by_name, find_load_balancer_ip}
use cluster_api_provider_sca.Service.Balancer.Members.{
  get_or_create_lb, create_lb_if_nil, create_backend_if_nil, create_frontend_if_nil, find_ip_id,
  ensure_private_network, prune_backends, prune_frontends, ensure_backend, ensure_frontend,
}

module _ {S : Type 0} (h : Handler S) (calm : IsCalm h) (c : Scope) (zone : String) where
  pub lb-Runs : Runs h AnyError Any (get_or_create_lb c zone)
  unfolding get_or_create_lb create_lb_if_nil find_ip_id find_load_balancer_by_name
      find_load_balancer_ip
  lb-Runs s = grind (arith, calm)

module _ {S : Type 0} (h : Handler S) (calm : IsCalm h) (b : LoadBalancer) where
  pub network-Runs : (id : Option String) → Runs h AnyError Any (ensure_private_network b id)
  unfolding ensure_private_network
  network-Runs none s = tt
  network-Runs (some id) s = grind (arith, calm)

  prune_backends-Runs :
      (bs : List Backend) (kept : Option Backend) → Runs h AnyError Any (prune_backends b bs kept)
  unfolding prune_backends
  prune_backends-Runs [] kept s = tt
  prune_backends-Runs (x ∷ bs) kept s =
      let rest = prune_backends-Runs bs in grind (arith, calm, rest)

  prune_frontends-Runs :
      (fs : List Frontend) (kept : Option Frontend)
      → Runs h AnyError Any (prune_frontends b fs kept)
  unfolding prune_frontends
  prune_frontends-Runs [] kept s = tt
  prune_frontends-Runs (x ∷ fs) kept s =
      let rest = prune_frontends-Runs fs in grind (arith, calm, rest)

  pub backend-Runs : Runs h AnyError Any (ensure_backend b)
  unfolding ensure_backend create_backend_if_nil
  backend-Runs s =
      let whole =
        λ (bs : List Backend). result-bind {B = Result Backend} h (prune_backends b bs none) in
      let pruned = λ (bs : List Backend). prune_backends-Runs bs none in
      grind (arith, calm, whole, pruned)

  pub frontend-Runs : (backend : Backend) → Runs h AnyError Any (ensure_frontend b backend)
  unfolding ensure_frontend create_frontend_if_nil
  frontend-Runs backend s =
      let whole =
        λ (fs : List Frontend). result-bind {B = Result Frontend} h (prune_frontends b fs none) in
      let pruned = λ (fs : List Frontend). prune_frontends-Runs fs none in
      grind (arith, calm, whole, pruned)
