-- ===== src/Service/Balancer/Members/Live.antt =====
-- When making the parts of a Load Balancer succeeds,
-- internal/service/scaleway/loadbalancer/loadbalancer.go.
use cluster_api_provider_sca.Prelude.{◌≡◌, Option, arith, some, none, String, List, [], ◌∷◌}
use cluster_api_provider_sca.Result.{Result}
use cluster_api_provider_sca.Cloud.{balancer_api}
use cluster_api_provider_sca.Client.Found.{IfAny}
use cluster_api_provider_sca.Cloud.Balancer.{
  CreateBalancer, create_balancer, LoadBalancer, Backend, Frontend,
}
use cluster_api_provider_sca.Prog.{Handler}
use cluster_api_provider_sca.Prog.Laws.{result-bind}
use cluster_api_provider_sca.Prog.Runs.{Meets, Runs, NoError, Any, IsWilling}
use cluster_api_provider_sca.Scope.Cluster.{Scope}
use cluster_api_provider_sca.Service.Balancer.Members.{
  create_lb_if_nil, create_backend_if_nil, create_frontend_if_nil, find_ip_id, given_ip,
  ensure_private_network, prune_backends, prune_frontends, ensure_backend, ensure_frontend,
}

module _ {S : Type 0} (h : Handler S) (answers : IsWilling h) (b : LoadBalancer) where
  pub network-Succeeds : (id : Option String) → Runs h NoError Any (ensure_private_network b id)
  unfolding ensure_private_network
  network-Succeeds none s = tt
  network-Succeeds (some id) s = grind (arith, answers)

  prune_backends-Runs :
      (bs : List Backend) (kept : Option Backend) → Runs h NoError Any (prune_backends b bs kept)
  unfolding prune_backends
  prune_backends-Runs [] kept s = tt
  prune_backends-Runs (x ∷ bs) kept s =
      let rest = prune_backends-Runs bs in grind (arith, answers, rest)

  prune_frontends-Runs :
      (fs : List Frontend) (kept : Option Frontend) → Runs h NoError Any (prune_frontends b fs kept)
  unfolding prune_frontends
  prune_frontends-Runs [] kept s = tt
  prune_frontends-Runs (x ∷ fs) kept s =
      let rest = prune_frontends-Runs fs in grind (arith, answers, rest)

  pub backend-Succeeds : Runs h NoError Any (ensure_backend b)
  unfolding ensure_backend create_backend_if_nil
  backend-Succeeds s =
      let whole =
        λ (bs : List Backend). result-bind {B = Result Backend} h (prune_backends b bs none) in
      let pruned = λ (bs : List Backend). prune_backends-Runs bs none in
      grind (arith, answers, whole, pruned)

  pub frontend-Succeeds : (backend : Backend) → Runs h NoError Any (ensure_frontend b backend)
  unfolding ensure_frontend create_frontend_if_nil
  frontend-Succeeds backend s =
      let whole =
        λ (fs : List Frontend). result-bind {B = Result Frontend} h (prune_frontends b fs none) in
      let pruned = λ (fs : List Frontend). prune_frontends-Runs fs none in
      grind (arith, answers, whole, pruned)

-- A Load Balancer that was found, or one that is made where the cluster gives no address.
module _ {S : Type 0} (h : Handler S) (P : LoadBalancer → Type 0)
    (created : (request : CreateBalancer) (s : S)
      → Meets NoError P (h (balancer_api (create_balancer request)) s).0)
    (c : Scope) (zone : String) (free : given_ip c ≡ none) where
  pub made-Runs :
      (found : Option LoadBalancer)
      → IfAny P found
      → Runs h NoError P (create_lb_if_nil c zone found)
  unfolding create_lb_if_nil find_ip_id
  made-Runs none fine s = rw free (created _ s)
  made-Runs (some b) fine s = fine
