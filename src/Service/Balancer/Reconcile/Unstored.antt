-- ===== src/Service/Balancer/Reconcile/Unstored.antt =====
-- `Reconcile` of internal/service/scaleway/loadbalancer/loadbalancer.go where the status lacks the
-- Private Network.
use cluster_api_provider_sca.Prelude.{◌≡◌, ◌≢◌, refl, true, none, arith}
use cluster_api_provider_sca.Result.{Result, ok, err, panicked}
use cluster_api_provider_sca.Sdk.{Sdk}
use cluster_api_provider_sca.Cloud.Balancer.{LoadBalancer}
use cluster_api_provider_sca.Prog.{ret, Handler, result}
use cluster_api_provider_sca.Prog.Laws.{result-bind, bind_post}
use cluster_api_provider_sca.Api.Cluster.{ScalewayCluster, Endpoint}
use cluster_api_provider_sca.Scope.Cluster.{
  Scope, load_balancer_zone, has_private_network, private_network_id,
}
use cluster_api_provider_sca.Service.Balancer.Members.{get_or_create_lb}
use cluster_api_provider_sca.Service.Balancer.Reconcile.{
  network_if_any, ensure_parts, ensure_endpoint, store_endpoint, reconcile,
}

-- There is a Private Network, and the status holds none.
abbrev pub LacksNetwork : ScalewayCluster → Type 0
LacksNetwork c = (has_private_network c ≡ true) × (c.status.network ≡ none)

module _ {S : Type 0} (h : Handler S) (sdk : Sdk) (c : Scope) (lost : LacksNetwork c.cluster) where
  parts_fail : (b : LoadBalancer) (s : S) {e : Endpoint} → result h (ensure_parts sdk c b) s ≢ ok e
  unfolding ensure_parts network_if_any private_network_id
  parts_fail b s run = let has = lost.0 in let gone = lost.1 in ground (arith, has, gone)

  endpoint_fails : (s : S) {e : Endpoint} → result h (ensure_endpoint sdk c) s ≢ ok e
  unfolding ensure_endpoint
  endpoint_fails s {e} run =
      bind_post h (get_or_create_lb c (load_balancer_zone c.cluster)) (ensure_parts sdk c) s run
        (λ b t run'. parts_fail b t {e = e} run')

  stored_fails :
      (r : Result Endpoint) → ((e : Endpoint) → r ≢ ok e) → (store_endpoint sdk c r).0 ≢ ok tt
  stored_fails (ok e) never p = never e refl
  stored_fails (err e) never p = absurd (cc)
  stored_fails panicked never p = absurd (cc)

  pub balancer_fails : (s : S) → (result h (reconcile sdk c) s).0 ≢ ok tt
  unfolding reconcile
  balancer_fails s =
      rw (result-bind h (ensure_endpoint sdk c) (λ r. ret (store_endpoint sdk c r)) s)
        (stored_fails (result h (ensure_endpoint sdk c) s) (λ e. endpoint_fails s {e = e}))
