-- ===== src/Service/Balancer/Reconcile/Laws.antt =====
-- The Load Balancer service as a whole.
use cluster_api_provider_sca.Prelude.{
  ◌≡◌, refl, sym, ap, ◌∙◌, String, true, false, not, Option, none, some, List, [], ◌∷◌, ◌++◌, ◌==◌,
  arith, find_first, is_some, ◌⊎◌,
}
use mathlib.Core.List.{append-nil}
use cluster_api_provider_sca.Result.{Result, ok, err, panicked, load_balancer_not_ready, wrapped}
use cluster_api_provider_sca.Sdk.{Sdk}
use cluster_api_provider_sca.Cloud.{Request, balancer_api}
use cluster_api_provider_sca.Cloud.Balancer.{
  LoadBalancer, Backend, Frontend, ready, in_status, list_balancers, delete_balancer,
}
use cluster_api_provider_sca.Prog.{Handler, result, final, changes, ret, continue, wrapping}
use cluster_api_provider_sca.Prog.Laws.{result-bind, changes-bind, bind_post, continue_post}
use cluster_api_provider_sca.Api.Cluster.{ScalewayCluster, Endpoint}
use cluster_api_provider_sca.Client.Balancer.{find_load_balancer_by_name}
use cluster_api_provider_sca.Scope.Cluster.{
  Scope, name, load_balancer_zone, has_private_network, private_network_id,
}
use cluster_api_provider_sca.Service.Balancer.Members.{
  given_ip, get_or_create_lb, ensure_private_network, ensure_backend, ensure_frontend,
}
use cluster_api_provider_sca.Service.Balancer.Acls.{ensure_acls}
use cluster_api_provider_sca.Service.Balancer.Reconcile.{
  first_ipv4, check_ready, network_if_any, endpoint_of, ensure_acls_of, ensure_frontend_of,
  ensure_backend_of, ensure_members, ensure_parts, ensure_endpoint, store_endpoint, reconcile,
  delete,
}

-- An address that `netip.ParseAddr` reads as one of version 4, behind addresses that are not.
abbrev pub IsFirstIpv4 : Sdk → List String → String → Type 0
IsFirstIpv4 sdk [] ip = ⊥
IsFirstIpv4 sdk (x ∷ xs) ip =
    ((x ≡ ip) × (sdk.parse_addr_is4 x ≡ ok true))
    ⊎ ((sdk.parse_addr_is4 x ≡ ok false) × IsFirstIpv4 sdk xs ip)

first_ipv4-IsFirstIpv4 :
    (sdk : Sdk) (ips : List String) {ip : String}
    → first_ipv4 sdk ips ≡ ok ip
    → IsFirstIpv4 sdk ips ip
unfolding first_ipv4
first_ipv4-IsFirstIpv4 sdk [] e = cc
first_ipv4-IsFirstIpv4 sdk (x ∷ xs) {ip} e = ground (arith, first_ipv4-IsFirstIpv4 sdk xs {ip = ip})

module _ {S : Type 0} (h : Handler S) (sdk : Sdk) (c : Scope) (balancer : LoadBalancer) where
  endpoint_host :
      (frontend : Frontend) (s : S) {e : Endpoint}
      → result h (endpoint_of sdk c balancer frontend) s ≡ ok e
      → first_ipv4 sdk balancer.ips ≡ ok e.host
  unfolding endpoint_of
  endpoint_host frontend s run = ground arith

  frontend_host :
      (pn_id : Option String) (backend : Backend) (s : S) {e : Endpoint}
      → result h (ensure_frontend_of sdk c balancer pn_id backend) s ≡ ok e
      → first_ipv4 sdk balancer.ips ≡ ok e.host
  unfolding ensure_frontend_of ensure_acls_of
  frontend_host pn_id backend s run =
      bind_post h
        (wrapping (ensure_frontend balancer backend)
          (wrapped "failed to ensure LoadBalancer frontend"))
        (ensure_acls_of sdk c balancer pn_id) s run
        λ frontend t run.
          bind_post h
            (wrapping (ensure_acls sdk c frontend pn_id)
              (wrapped "failed to ensure LoadBalancer ACLs"))
            (λ _. endpoint_of sdk c balancer frontend) t run λ _ u run. endpoint_host frontend u run

  members_host :
      (pn_id : Option String) (s : S) {e : Endpoint}
      → result h (ensure_members sdk c balancer pn_id) s ≡ ok e
      → first_ipv4 sdk balancer.ips ≡ ok e.host
  unfolding ensure_members ensure_backend_of
  members_host pn_id s run =
      bind_post h (ensure_private_network balancer pn_id)
        (λ _. ensure_backend_of sdk c balancer pn_id) s run
        λ _ t run.
          bind_post h
            (wrapping (ensure_backend balancer) (wrapped "failed to ensure LoadBalancer backend"))
            (ensure_frontend_of sdk c balancer pn_id) t run
            λ backend u run. frontend_host pn_id backend u run

ensure_parts_host :
    {S : Type 0} (h : Handler S) (sdk : Sdk) (c : Scope) (balancer : LoadBalancer) (s : S)
    {e : Endpoint}
    → result h (ensure_parts sdk c balancer) s ≡ ok e
    → first_ipv4 sdk balancer.ips ≡ ok e.host
unfolding ensure_parts
ensure_parts_host h sdk c balancer s run =
    continue_post h (λ _. continue (ensure_members sdk c balancer) (network_if_any sdk c)) s
      (check_ready balancer.status) run
      λ _ _ run.
        continue_post h (ensure_members sdk c balancer) s (network_if_any sdk c) run
          λ pn_id _ run. members_host h sdk c balancer pn_id s run

-- What the object looks like where an endpoint was found.
stored_endpoint :
    (sdk : Sdk) (c : Scope) (r : Result Endpoint) (ips : List String) {c' : ScalewayCluster}
    → ((e : Endpoint) → r ≡ ok e → IsFirstIpv4 sdk ips e.host)
    → store_endpoint sdk c r ≡ (ok tt, c')
    → IsFirstIpv4 sdk ips c'.spec.control_plane_endpoint.host
      × (c' ≡ record c.cluster {
        spec = record c.cluster.spec { control_plane_endpoint = c'.spec.control_plane_endpoint };
      })
stored_endpoint sdk c (ok e) ips {c'} found done =
    let same : c' ≡ (store_endpoint sdk c (ok e)).1 = cc in rw same (found e refl, refl)
stored_endpoint sdk c (err e) ips found done = cc
stored_endpoint sdk c panicked ips found done = cc

module _ {S : Type 0} (h : Handler S) (sdk : Sdk) (c : Scope) (s : S) where
  -- What a reconciliation is, from a Load Balancer that was found or created.
  reconcile_from :
      {balancer : LoadBalancer}
      → result h (get_or_create_lb c (load_balancer_zone c.cluster)) s ≡ ok balancer
      → let t = final h (get_or_create_lb c (load_balancer_zone c.cluster)) s in
        (result h (reconcile sdk c) s
          ≡ store_endpoint sdk c (result h (ensure_parts sdk c balancer) t))
        × (changes h (reconcile sdk c) s
            ≡ changes h (get_or_create_lb c (load_balancer_zone c.cluster)) s
              ++ changes h (ensure_parts sdk c balancer) t)
  unfolding reconcile ensure_endpoint
  reconcile_from found = (
    result-bind h (ensure_endpoint sdk c) (λ r. ret (store_endpoint sdk c r)) s
        ∙ ap (store_endpoint sdk c) (
            result-bind h (get_or_create_lb c (load_balancer_zone c.cluster))
              (continue (ensure_parts sdk c)) s
            ∙ rw found),
    changes-bind h (ensure_endpoint sdk c) (λ r. ret (store_endpoint sdk c r)) s
        ∙ append-nil _
        ∙ changes-bind h (get_or_create_lb c (load_balancer_zone c.cluster))
            (continue (ensure_parts sdk c)) s
        ∙ rw found,
  )

  -- While the Load Balancer is not ready, the service asks for nothing beyond what finding or
  -- creating it takes, fails with the error that makes the controller wait, and leaves the object.
  pub reconcile_not_ready :
      {balancer : LoadBalancer} {status : String}
      → result h (get_or_create_lb c (load_balancer_zone c.cluster)) s ≡ ok balancer
      → balancer.status ≡ in_status status
      → (changes h (reconcile sdk c) s
          ≡ changes h (get_or_create_lb c (load_balancer_zone c.cluster)) s)
        × (result h (reconcile sdk c) s ≡ (err load_balancer_not_ready, c.cluster))
  unfolding ensure_parts
  reconcile_not_ready {balancer} found waits =
      ((reconcile_from found).1 ∙ simp waits (append-nil _), (reconcile_from found).0 ∙ simp waits)

  -- A cluster with a Private Network whose status holds no network, with a Load Balancer that is
  -- ready, makes the service follow a nil pointer.
  pub reconcile_unstored_network :
      {balancer : LoadBalancer}
      → result h (get_or_create_lb c (load_balancer_zone c.cluster)) s ≡ ok balancer
      → balancer.status ≡ ready
      → has_private_network c.cluster ≡ true
      → c.cluster.status.network ≡ none
      → result h (reconcile sdk c) s ≡ (panicked, c.cluster)
  unfolding ensure_parts private_network_id
  reconcile_unstored_network {balancer} found is_ready has_network unstored =
      (reconcile_from found).0 ∙ simp (is_ready, has_network, unstored)

  -- A reconciliation that succeeds stores the first address of version 4 among those of the Load
  -- Balancer as the host of the endpoint, and changes nothing else of the object than the endpoint.
  pub reconcile_stores :
      {balancer : LoadBalancer} {c' : ScalewayCluster}
      → result h (get_or_create_lb c (load_balancer_zone c.cluster)) s ≡ ok balancer
      → result h (reconcile sdk c) s ≡ (ok tt, c')
      → IsFirstIpv4 sdk balancer.ips c'.spec.control_plane_endpoint.host
        × (c' ≡ record c.cluster {
          spec = record c.cluster.spec { control_plane_endpoint = c'.spec.control_plane_endpoint };
        })
  reconcile_stores {balancer} {c'} found done =
      stored_endpoint sdk c (result h (ensure_parts sdk c balancer) _) balancer.ips
        (λ e run.
          first_ipv4-IsFirstIpv4 sdk balancer.ips (ensure_parts_host h sdk c balancer _ run))
        (sym (reconcile_from found).0 ∙ done)

  -- A deletion asks for nothing but the deletion of the Load Balancer that is listed under the name
  -- of the cluster, and its address is released exactly where the user gave none.
  pub changes-delete_balancer :
      {balancers : List LoadBalancer}
      → (h (balancer_api (list_balancers (load_balancer_zone c.cluster) (name c.cluster))) s).0
        ≡ ok balancers
      → changes h (delete c) s
        ≡ (elim (find_first (λ b. b.name == name c.cluster) balancers) as (λ _. List Request) [
          | none ↦ []
          | some b ↦ balancer_api (delete_balancer b.zone b.id (not (is_some (given_ip c)))) ∷ []
        ])
  unfolding delete find_load_balancer_by_name
  changes-delete_balancer listed = ground arith
