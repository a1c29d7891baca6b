-- ===== src/Service/Balancer/Reconcile/Safe.antt =====
-- Panics of `Reconcile` and `Delete` of internal/service/scaleway/loadbalancer/loadbalancer.go.
use cluster_api_provider_sca.Prelude.{Option, arith, String, List, [], ◌∷◌}
use cluster_api_provider_sca.Result.{wrapped}
use cluster_api_provider_sca.Sdk.{Sdk}
use cluster_api_provider_sca.Sdk.Plain.{IsPlain}
use cluster_api_provider_sca.Cloud.Balancer.{
  BalancerStatus, ready, in_status, LoadBalancer, Backend, Frontend,
}
use cluster_api_provider_sca.Prog.{lift, ◌>>=◌, Handler, wrapping, ret, result}
use cluster_api_provider_sca.Prog.Laws.{result-bind}
use cluster_api_provider_sca.Prog.Runs.{
  Runs, Runs-bind, Runs-wrapping, AnyError, Any, IsCalm, Meets,
}
use cluster_api_provider_sca.Scope.Cluster.{Scope, load_balancer_zone}
use cluster_api_provider_sca.Client.Balancer.{find_load_balancer_by_name}
use cluster_api_provider_sca.Service.Vpc.Safe.{IsStored, stored_id}
use cluster_api_provider_sca.Service.Balancer.Members.{
  get_or_create_lb, ensure_private_network, ensure_backend, ensure_frontend,
}
use cluster_api_provider_sca.Service.Balancer.Members.Safe.{
  lb-Runs, network-Runs, backend-Runs, frontend-Runs,
}
use cluster_api_provider_sca.Service.Balancer.Acls.{ensure_acls}
use cluster_api_provider_sca.Service.Balancer.Acls.Safe.{acls-Runs}
use cluster_api_provider_sca.Service.Balancer.Reconcile.{
  check_ready, first_ipv4, endpoint_of, ensure_acls_of, ensure_frontend_of, ensure_backend_of,
  ensure_members, network_if_any, ensure_parts, ensure_endpoint, store_endpoint, reconcile, delete,
  delete_lb_if_found,
}

first_ipv4-plain :
    (sdk : Sdk) → IsPlain sdk → (ips : List String) → Meets AnyError Any (first_ipv4 sdk ips)
unfolding first_ipv4
first_ipv4-plain sdk plain [] = tt
first_ipv4-plain sdk plain (ip ∷ ips) =
    let rest = first_ipv4-plain sdk plain ips in
    let addr = plain.addr ip in grind (arith, rest, addr)

check_ready-plain : (status : BalancerStatus) → Meets AnyError Any (check_ready status)
check_ready-plain ready = tt
check_ready-plain (in_status text) = tt

module _ {S : Type 0} (h : Handler S) (calm : IsCalm h) (sdk : Sdk) (plain : IsPlain sdk)
    (c : Scope) where
  endpoint_of-Runs :
      (b : LoadBalancer) (frontend : Frontend) → Runs h AnyError Any (endpoint_of sdk c b frontend)
  unfolding endpoint_of
  endpoint_of-Runs b frontend s = let last = first_ipv4-plain sdk plain b.ips in grind (arith, last)

  acls_of-Runs :
      (b : LoadBalancer) (id : Option String) (frontend : Frontend)
      → Runs h AnyError Any (ensure_acls_of sdk c b id frontend)
  unfolding ensure_acls_of
  acls_of-Runs b id frontend =
      let text : String = "failed to ensure LoadBalancer ACLs" in
      let first = ensure_acls sdk c frontend id in
      Runs-bind h AnyError Any Any (wrapping first (wrapped text))
        (λ _. endpoint_of sdk c b frontend)
        (Runs-wrapping h Any text first (acls-Runs h calm c sdk frontend id))
        (λ _ _. endpoint_of-Runs b frontend)

  frontend_of-Runs :
      (b : LoadBalancer) (id : Option String) (backend : Backend)
      → Runs h AnyError Any (ensure_frontend_of sdk c b id backend)
  unfolding ensure_frontend_of
  frontend_of-Runs b id backend =
      let text : String = "failed to ensure LoadBalancer frontend" in
      let first = ensure_frontend b backend in
      Runs-bind h AnyError Any Any (wrapping first (wrapped text)) (ensure_acls_of sdk c b id)
        (Runs-wrapping h Any text first (frontend-Runs h calm b backend))
        (λ frontend _. acls_of-Runs b id frontend)

  backend_of-Runs :
      (b : LoadBalancer) (id : Option String) → Runs h AnyError Any (ensure_backend_of sdk c b id)
  unfolding ensure_backend_of
  backend_of-Runs b id =
      let text : String = "failed to ensure LoadBalancer backend" in
      let first = ensure_backend b in
      Runs-bind h AnyError Any Any (wrapping first (wrapped text)) (ensure_frontend_of sdk c b id)
        (Runs-wrapping h Any text first (backend-Runs h calm b))
        (λ backend _. frontend_of-Runs b id backend)

  members-Runs :
      (b : LoadBalancer) (id : Option String) → Runs h AnyError Any (ensure_members sdk c b id)
  unfolding ensure_members
  members-Runs b id =
      Runs-bind h AnyError Any Any (ensure_private_network b id) (λ _. ensure_backend_of sdk c b id)
        (network-Runs h calm b id) (λ _ _. backend_of-Runs b id)

  network_if_any-stored : IsStored c.cluster → Meets AnyError Any (network_if_any sdk c)
  unfolding network_if_any
  network_if_any-stored stored = let id = stored_id c.cluster stored in grind (arith, id)

  parts-Runs : IsStored c.cluster → (b : LoadBalancer) → Runs h AnyError Any (ensure_parts sdk c b)
  unfolding ensure_parts
  parts-Runs stored b =
      Runs-bind h AnyError Any Any (lift (check_ready b.status))
        (λ _. lift (network_if_any sdk c) >>= ensure_members sdk c b)
        (λ _. check_ready-plain b.status)
        (λ _ _.
          Runs-bind h AnyError Any Any (lift (network_if_any sdk c)) (ensure_members sdk c b)
            (λ _. network_if_any-stored stored) (λ id _. members-Runs b id))

  endpoint-Runs : IsStored c.cluster → Runs h AnyError Any (ensure_endpoint sdk c)
  unfolding ensure_endpoint
  endpoint-Runs stored =
      Runs-bind h AnyError Any Any (get_or_create_lb c (load_balancer_zone c.cluster))
        (ensure_parts sdk c) (lb-Runs h calm c (load_balancer_zone c.cluster))
        (λ b _. parts-Runs stored b)

  pub balancer-Runs :
      IsStored c.cluster → (s : S) → Meets AnyError Any (result h (reconcile sdk c) s).0
  unfolding reconcile
  balancer-Runs stored s =
      let first = endpoint-Runs stored s in
      rw (result-bind h (ensure_endpoint sdk c) (λ r. ret (store_endpoint sdk c r)) s)
        (grind (arith, first))

module _ {S : Type 0} (h : Handler S) (calm : IsCalm h) (c : Scope) where
  pub balancer_delete-Runs : Runs h AnyError Any (delete c)
  unfolding delete delete_lb_if_found find_load_balancer_by_name
  balancer_delete-Runs s = grind (arith, calm)
