-- ===== src/Service/Balancer/Reconcile/Live.antt =====
-- When `Reconcile` of internal/service/scaleway/loadbalancer/loadbalancer.go succeeds.
use cluster_api_provider_sca.Prelude.{◌≡◌, refl, Option, arith, none, some, String, true, ◌==◌, All}
use cluster_api_provider_sca.Result.{
  Error, Result, ok, err, panicked, wrapped, optional, is_load_balancer_not_ready,
}
use cluster_api_provider_sca.Api.Cluster.{ScalewayCluster}
use cluster_api_provider_sca.Sdk.{Sdk}
use cluster_api_provider_sca.Cloud.{balancer_api}
use cluster_api_provider_sca.Cloud.Balancer.{
  ready, in_status, BalancerStatus, LoadBalancer, Backend, Frontend, CreateBalancer,
  create_balancer, list_balancers,
}
use cluster_api_provider_sca.Prog.{ask, lift, or_nil, ◌>>=◌, Handler, wrapping, ret, result}
use cluster_api_provider_sca.Prog.Laws.{result-bind}
use cluster_api_provider_sca.Prog.Runs.{
  Runs, Runs-bind, Runs-map, NoError, Any, IsWilling, Meets, answered-Meets,
}
use cluster_api_provider_sca.Client.{first_item}
use cluster_api_provider_sca.Client.Found.{IfAny, search_found, wrapping_answered}
use cluster_api_provider_sca.Client.Balancer.{find_load_balancer_by_name}
use cluster_api_provider_sca.Scope.Cluster.{Scope, load_balancer_zone, name}
use cluster_api_provider_sca.Service.Vpc.Live.{IsIdentified}
use cluster_api_provider_sca.Service.Balancer.Members.{
  given_ip, get_or_create_lb, create_lb_if_nil, ensure_private_network, ensure_backend,
  ensure_frontend,
}
use cluster_api_provider_sca.Service.Balancer.Members.Live.{
  made-Runs, network-Succeeds, backend-Succeeds, frontend-Succeeds,
}
use cluster_api_provider_sca.Service.Balancer.Acls.{ensure_acls}
use cluster_api_provider_sca.Service.Balancer.Acls.Live.{acls-Succeeds}
use cluster_api_provider_sca.Service.Balancer.Reconcile.{
  check_ready, first_ipv4, endpoint_of, ensure_acls_of, ensure_frontend_of, ensure_backend_of,
  ensure_members, network_if_any, ensure_parts, ensure_endpoint, store_endpoint, reconcile,
}

-- A Load Balancer that is ready, with an IPv4 address.
abbrev pub IsReady : Sdk → LoadBalancer → Type 0
IsReady sdk b = (b.status ≡ ready) × Meets NoError Any (first_ipv4 sdk b.ips)

-- A Load Balancer that has an IPv4 address once it is ready.
abbrev pub Works : Sdk → LoadBalancer → Type 0
Works sdk b = b.status ≡ ready → Meets NoError Any (first_ipv4 sdk b.ips)

-- The API answers every call, and its Load Balancers have an IPv4 address once they are ready.
pub record IsServing {S : Type 0} (h : Handler S) (sdk : Sdk) : Type 0 where
  pub answers : IsWilling h
  pub listed :
      (zone name : String) (s : S)
      → Meets NoError (All (Works sdk)) (h (balancer_api (list_balancers zone name)) s).0
  pub created :
      (request : CreateBalancer) (s : S)
      → Meets NoError (Works sdk) (h (balancer_api (create_balancer request)) s).0

-- The API lists a Load Balancer of the cluster, and it is ready.
abbrev pub IsShown : {S : Type 0} → Handler S → Sdk → ScalewayCluster → Type 0
IsShown h sdk c =
    (s : _)
    → Meets NoError
        (λ balancers. Meets NoError (IsReady sdk) (first_item (λ b. b.name == name c) balancers))
        (h (balancer_api (list_balancers (load_balancer_zone c) (name c))) s).0

-- The only error is that the Load Balancer is not ready, and then `W` holds.
abbrev pub Awaits : Type 0 → Error → Type 0
Awaits W e = (is_load_balancer_not_ready e ≡ true) × W

-- There is an item, and it has the property.
abbrev IsSome {ℓ} : {A : Type ℓ} → (A → Type 0) → Option A → Type 0
IsSome P none = ⊥
IsSome P (some a) = P a

optional-IsSome {ℓ} :
    {A : Type ℓ} (P : A → Type 0) (r : Result A)
    → Meets NoError P r
    → Meets NoError (IsSome P) (optional r)
optional-IsSome P (ok a) fine = fine
optional-IsSome P (err e) fine = absurd fine
optional-IsSome P panicked fine = fine

module _ {S : Type 0} (h : Handler S) (sdk : Sdk) (serving : IsServing h sdk) (c : Scope) where
  endpoint_of-Runs :
      (b : LoadBalancer)
      → IsReady sdk b
      → (frontend : Frontend) → Runs h NoError Any (endpoint_of sdk c b frontend)
  unfolding endpoint_of
  endpoint_of-Runs b works frontend s = let last = works.1 in grind (arith, last)

  acls_of-Runs :
      (b : LoadBalancer)
      → IsReady sdk b
      → (id : Option String) (frontend : Frontend)
      → Runs h NoError Any (ensure_acls_of sdk c b id frontend)
  unfolding ensure_acls_of
  acls_of-Runs b works id frontend =
      let text : String = "failed to ensure LoadBalancer ACLs" in
      let first = ensure_acls sdk c frontend id in
      Runs-bind h NoError Any Any (wrapping first (wrapped text))
        (λ _. endpoint_of sdk c b frontend)
        (wrapping_answered h Any text first (acls-Succeeds h serving.answers c sdk frontend id))
        (λ _ _. endpoint_of-Runs b works frontend)

  frontend_of-Runs :
      (b : LoadBalancer)
      → IsReady sdk b
      → (id : Option String) (backend : Backend)
      → Runs h NoError Any (ensure_frontend_of sdk c b id backend)
  unfolding ensure_frontend_of
  frontend_of-Runs b works id backend =
      let text : String = "failed to ensure LoadBalancer frontend" in
      let first = ensure_frontend b backend in
      Runs-bind h NoError Any Any (wrapping first (wrapped text)) (ensure_acls_of sdk c b id)
        (wrapping_answered h Any text first (frontend-Succeeds h serving.answers b backend))
        (λ frontend _. acls_of-Runs b works id frontend)

  backend_of-Runs :
      (b : LoadBalancer)
      → IsReady sdk b
      → (id : Option String) → Runs h NoError Any (ensure_backend_of sdk c b id)
  unfolding ensure_backend_of
  backend_of-Runs b works id =
      let text : String = "failed to ensure LoadBalancer backend" in
      let first = ensure_backend b in
      Runs-bind h NoError Any Any (wrapping first (wrapped text)) (ensure_frontend_of sdk c b id)
        (wrapping_answered h Any text first (backend-Succeeds h serving.answers b))
        (λ backend _. frontend_of-Runs b works id backend)

  members-Runs :
      (b : LoadBalancer)
      → IsReady sdk b
      → (id : Option String) → Runs h NoError Any (ensure_members sdk c b id)
  unfolding ensure_members
  members-Runs b works id =
      Runs-bind h NoError Any Any (ensure_private_network b id) (λ _. ensure_backend_of sdk c b id)
        (network-Succeeds h serving.answers b id) (λ _ _. backend_of-Runs b works id)

  network_if_any-stored : IsIdentified c.cluster → Meets NoError Any (network_if_any sdk c)
  unfolding network_if_any
  network_if_any-stored stored = grind (arith, stored)

  check_ready-ready : (b : LoadBalancer) → IsReady sdk b → Meets NoError Any (check_ready b.status)
  check_ready-ready b works = let is_ready = works.0 in ground arith

  parts-Runs :
      IsIdentified c.cluster
      → (b : LoadBalancer) → IsReady sdk b
      → Runs h NoError Any (ensure_parts sdk c b)
  unfolding ensure_parts
  parts-Runs stored b works =
      Runs-bind h NoError Any Any (lift (check_ready b.status))
        (λ _. lift (network_if_any sdk c) >>= ensure_members sdk c b)
        (λ _. check_ready-ready b works)
        (λ _ _.
          Runs-bind h NoError Any Any (lift (network_if_any sdk c)) (ensure_members sdk c b)
            (λ _. network_if_any-stored stored) (λ id _. members-Runs b works id))

  -- A Load Balancer that is not ready ends the reconciliation with the error that says so.
  parts-Awaits :
      IsIdentified c.cluster
      → (b : LoadBalancer) → Works sdk b
      → Runs h (Awaits (Unit {0})) Any (ensure_parts sdk c b)
  unfolding ensure_parts
  parts-Awaits stored b works s = go b.status refl
    where
      go :
          (status : BalancerStatus)
          → b.status ≡ status
          → Meets (Awaits (Unit {0})) Any (result h (ensure_parts sdk c b) s)
      go ready e =
          answered-Meets (Awaits (Unit {0})) Any (result h (ensure_parts sdk c b) s)
            (parts-Runs stored b (e, works e) s)
      go (in_status status) e = rw e (refl, tt)

  lb-Runs :
      given_ip c ≡ none → (zone : String) → Runs h NoError (Works sdk) (get_or_create_lb c zone)
  unfolding get_or_create_lb find_load_balancer_by_name
  lb-Runs free zone =
      let listing = ask (balancer_api (list_balancers zone (name c.cluster))) in
      let named = λ (balancer : LoadBalancer). balancer.name == name c.cluster in
      Runs-bind h NoError (IfAny (Works sdk)) (Works sdk)
        (or_nil (listing >>= λ balancers. lift (first_item named balancers)))
        (create_lb_if_nil c zone)
        (search_found h (Works sdk) listing named (serving.listed zone (name c.cluster)))
        (made-Runs h (Works sdk) serving.created c zone free)

  shown-Runs :
      IsShown h sdk c.cluster
      → Runs h NoError (IsReady sdk) (get_or_create_lb c (load_balancer_zone c.cluster))
  unfolding get_or_create_lb find_load_balancer_by_name create_lb_if_nil
  shown-Runs shown =
      let zone = load_balancer_zone c.cluster in
      let listing = ask (balancer_api (list_balancers zone (name c.cluster))) in
      let named = λ (balancer : LoadBalancer). balancer.name == name c.cluster in
      let search = listing >>= λ balancers. lift (first_item named balancers) in
      Runs-bind h NoError (IsSome (IsReady sdk)) (IsReady sdk) (or_nil search)
        (create_lb_if_nil c zone)
        (Runs-map h NoError NoError (IsReady sdk) (IsSome (IsReady sdk)) search optional
          (Runs-bind h NoError (λ bs. Meets NoError (IsReady sdk) (first_item named bs))
            (IsReady sdk) listing (λ balancers. lift (first_item named balancers)) shown
            (λ balancers fine s. fine))
          (optional-IsSome (IsReady sdk)))
        kept
    where
      kept :
          (found : Option LoadBalancer)
          → IsSome (IsReady sdk) found
          → Runs h NoError (IsReady sdk) (create_lb_if_nil c (load_balancer_zone c.cluster) found)
      kept none fine s = absurd fine
      kept (some b) fine s = fine

  module _ (E : Error → Type 0) where
    stored-Meets :
        Runs h E Any (ensure_endpoint sdk c)
        → (s : S) → Meets E Any (result h (reconcile sdk c) s).0
    unfolding reconcile
    stored-Meets first s =
        let ended = first s in
        rw (result-bind h (ensure_endpoint sdk c) (λ r. ret (store_endpoint sdk c r)) s)
          (grind (arith, ended))

  -- A reconciliation of a cluster that gives no address for its Load Balancer, of which the
  -- identifier of the Private Network is stored, succeeds, or it waits for the Load Balancer.
  pub balancer-Awaits :
      IsIdentified c.cluster
      → given_ip c ≡ none
      → (s : S) → Meets (Awaits (Unit {0})) Any (result h (reconcile sdk c) s).0
  unfolding ensure_endpoint
  balancer-Awaits stored free =
      let zone = load_balancer_zone c.cluster in
      stored-Meets (Awaits (Unit {0})) (
        Runs-bind h (Awaits (Unit {0})) (Works sdk) Any (get_or_create_lb c zone)
          (ensure_parts sdk c)
          (λ s.
            answered-Meets (Awaits (Unit {0})) (Works sdk) (result h (get_or_create_lb c zone) s)
              (lb-Runs free zone s))
          (parts-Awaits stored))

  -- It succeeds where the API lists a Load Balancer of the cluster that is ready.
  pub balancer-Succeeds :
      IsIdentified c.cluster
      → IsShown h sdk c.cluster
      → (s : S) → Meets NoError Any (result h (reconcile sdk c) s).0
  unfolding ensure_endpoint
  balancer-Succeeds stored shown = stored-Meets NoError (
      Runs-bind h NoError (IsReady sdk) Any (get_or_create_lb c (load_balancer_zone c.cluster))
        (ensure_parts sdk c) (shown-Runs shown) (parts-Runs stored))
