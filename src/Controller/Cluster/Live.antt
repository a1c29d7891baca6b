-- ===== src/Controller/Cluster/Live.antt =====
-- When `reconcileNormal` of internal/controller/scalewaycluster_controller.go reaches its end.
use cluster_api_provider_sca.Prelude.{◌≡◌, ◌⊎◌, ap, true, inl, inr}
use cluster_api_provider_sca.Result.{ok}
use cluster_api_provider_sca.Sdk.{Sdk}
use cluster_api_provider_sca.Prog.{Handler, result}
use cluster_api_provider_sca.Prog.Runs.{Any, answered-Meets}
use cluster_api_provider_sca.Client.{Client}
use cluster_api_provider_sca.Api.Cluster.{ScalewayCluster, ScalewayClusterSpec}
use cluster_api_provider_sca.Scope.Cluster.{name, region, load_balancer_zone, default_zone}
use cluster_api_provider_sca.Webhook.Field.{admitted}
use cluster_api_provider_sca.Webhook.Cluster.{validate_create}
use cluster_api_provider_sca.Service.Balancer.Reconcile.Live.{
  Awaits, IsShown, balancer-Succeeds, balancer-Awaits,
}
use cluster_api_provider_sca.Controller.Cluster.Ready.{reconcile_normal-Marked}
use cluster_api_provider_sca.Controller.Cluster.{done, after, reconcile_normal}
use cluster_api_provider_sca.Controller.Cluster.Serving.{IsServing, IsPlainCluster}
use cluster_api_provider_sca.Controller.Cluster.Ends.{IsStable, Balances, normal-Ends}

IsShown-IsStable : {S : Type 0} (h : Handler S) (sdk : Sdk) → IsStable (IsShown h sdk)
unfolding name load_balancer_zone default_zone region
IsShown-IsStable h sdk c c' same named shown s =
    let domains = ap (λ (spec : ScalewayClusterSpec). spec.failure_domains) same in
    let balancer = ap (λ (spec : ScalewayClusterSpec). spec.control_plane_load_balancer) same in
    let place = ap (λ (spec : ScalewayClusterSpec). spec.region) same in
    rw (domains, balancer, place, named) (shown s)

module _ {S : Type 0} (h : Handler S) (sdk : Sdk) (serving : IsServing h sdk)
    (client : Client) where
  -- A reconciliation of a cluster comes to its end, with nothing to wait for, and marks the cluster
  -- ready, where every call is answered, the networks that the API lists and creates have DHCP, no
  -- two addresses have the tags of a cluster, Load Balancers that are ready have an IPv4 address,
  -- and the API lists a Load Balancer of the cluster that is ready; where "0.0.0.0/0" is a range;
  -- where the webhook admits the cluster, the subnet that it gives is one and it gives no addresses
  -- of its own; and where the status has the identifier of a Private Network that the user gave.
  pub reconcile_normal-done :
      (c : ScalewayCluster) (s : S)
      → IsPlainCluster sdk client c
      → validate_create sdk c ≡ ok admitted
      → IsShown h sdk c
      → ((result h (reconcile_normal sdk client c) s).0 ≡ ok done)
        × ((result h (reconcile_normal sdk client c) s).1.status.ready ≡ true)
  reconcile_normal-done c s plain given shown =
      let balances : Balances h sdk client (IsShown h sdk) ⊥ = λ c t stored free shown.
        answered-Meets (Awaits ⊥) Any _ (
          balancer-Succeeds h sdk serving.balancers (record { client = client; cluster = c }) stored
            shown t) in
      elim (normal-Ends h sdk serving client (IsShown h sdk) (IsShown-IsStable h sdk) ⊥ balances c
        plain given shown s) [
          | inl ended ↦ elim (reconcile_normal-Marked h sdk client c s).1 [
            | inl p ↦ p
            | inr p ↦ absurd (p.0 ended)
          ]
          | inr waits ↦ absurd waits.1
        ]

  -- A reconciliation of a cluster fails in no way: it comes to its end or asks to be called again
  -- after two seconds, where every call is answered, the networks that the API lists and creates
  -- have DHCP, no two addresses have the tags of a cluster, and Load Balancers, ready or not, have
  -- an IPv4 address once they are ready; where "0.0.0.0/0" is a range; where the webhook admits the
  -- cluster, the subnet that it gives is one and it gives no addresses of its own; and where the
  -- status has the identifier of a Private Network that the user gave.
  pub reconcile_normal-awaits :
      (c : ScalewayCluster) (s : S)
      → IsPlainCluster sdk client c
      → validate_create sdk c ≡ ok admitted
      → ((result h (reconcile_normal sdk client c) s).0 ≡ ok done)
        ⊎ ((result h (reconcile_normal sdk client c) s).0 ≡ ok (after 2))
  reconcile_normal-awaits c s plain given =
      let balances : Balances h sdk client (λ _. Unit {0}) (Unit {0}) = λ c t stored free known.
        balancer-Awaits h sdk serving.balancers (record { client = client; cluster = c }) stored
          free t in
      elim (normal-Ends h sdk serving client (λ _. Unit {0}) (λ c c' same named known. tt)
        (Unit {0}) balances c plain given tt s) [ inl ended ↦ inl ended | inr waits ↦ inr waits.0 ]
