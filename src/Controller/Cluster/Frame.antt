-- ===== src/Controller/Cluster/Frame.antt =====
-- What a reconciliation of a cluster leaves alone.
use cluster_api_provider_sca.Prelude.{◌≡◌, refl, ap, ◌∙◌, Bool-cases, inl, inr}
use cluster_api_provider_sca.Result.{Result, ok, err, panicked, wrapped}
use cluster_api_provider_sca.Sdk.{Sdk}
use cluster_api_provider_sca.Prog.{ret, wrapping, Handler, result}
use cluster_api_provider_sca.Prog.Laws.{result-bind}
use cluster_api_provider_sca.Client.{Client}
use cluster_api_provider_sca.Api.Cluster.{
  ScalewayCluster, ScalewayClusterSpec, Endpoint, cluster_finalizer,
}
use cluster_api_provider_sca.Scope.Cluster.{
  Scope, set_status_private_network_id, should_manage_private_network,
}
use cluster_api_provider_sca.Cloud.Network.{PrivateNetwork}
use cluster_api_provider_sca.Service.Vpc
use cluster_api_provider_sca.Service.Vpc.Laws.{reconcile-managed, reconcile-unmanaged}
use cluster_api_provider_sca.Service.Gateway
use cluster_api_provider_sca.Service.Balancer.Reconcile as Balancer
use cluster_api_provider_sca.Service.Group.Ensure as Group
use cluster_api_provider_sca.Controller.Finalizers.{has_finalizer}
use cluster_api_provider_sca.Controller.Cluster.{
  done, Outcome, with_domains, with_ready, with_finalizer, patch_finalizer, balancer_step,
  after_network, network_step, reconcile_services, reconcile_normal,
}
use cluster_api_provider_sca.Controller.Cluster.Laws.{keep_cases}
use cluster_api_provider_sca.Controller.Cluster.Ready.{after_step_cases}

-- Of the specification, the endpoint of the control plane alone may differ.
abbrev pub HasSpec : ScalewayCluster → ScalewayCluster → Type 0
HasSpec c c' = c'.spec ≡ record c.spec { control_plane_endpoint = c'.spec.control_plane_endpoint }

HasSpec-trans : (a b c : ScalewayCluster) → HasSpec a b → HasSpec b c → HasSpec a c
HasSpec-trans a b c p q =
    q
    ∙ ap
        (λ (spec : ScalewayClusterSpec). record spec {
          control_plane_endpoint = c.spec.control_plane_endpoint;
        })
        p

stored_id-HasSpec :
    (sdk : Sdk) (c : Scope) (r : Result PrivateNetwork) → HasSpec c.cluster (Vpc.store_id sdk c r).1
unfolding set_status_private_network_id
stored_id-HasSpec sdk c (ok pn) = refl
stored_id-HasSpec sdk c (err e) = refl
stored_id-HasSpec sdk c panicked = refl

stored_endpoint-HasSpec :
    (sdk : Sdk) (c : Scope) (r : Result Endpoint)
    → HasSpec c.cluster (Balancer.store_endpoint sdk c r).1
stored_endpoint-HasSpec sdk c (ok e) = refl
stored_endpoint-HasSpec sdk c (err e) = refl
stored_endpoint-HasSpec sdk c panicked = refl

pub with_finalizer-HasSpec :
    (sdk : Sdk) (client : Client) (c : ScalewayCluster) → HasSpec c (with_finalizer sdk client c)
with_finalizer-HasSpec sdk client c = elim (Bool-cases (has_finalizer cluster_finalizer c.meta)) [
  | inl has ↦ rw has refl
  | inr not_yet ↦ rw not_yet refl
]

module _ {S : Type 0} (h : Handler S) (sdk : Sdk) (client : Client) where
  pub vpc-HasSpec : (c : Scope) (s : S) → HasSpec c.cluster (result h (Vpc.reconcile sdk c) s).1
  vpc-HasSpec c s = elim (Bool-cases (should_manage_private_network c.cluster)) [
    | inl managed ↦ rw (reconcile-managed h sdk c s managed).0 (stored_id-HasSpec sdk c _)
    | inr unmanaged ↦ rw (reconcile-unmanaged h sdk c s unmanaged).0 refl
  ]

  balancer-HasSpec :
      (c : Scope) (s : S) → HasSpec c.cluster (result h (Balancer.reconcile sdk c) s).1
  unfolding Balancer.reconcile
  balancer-HasSpec c s =
      rw
        (result-bind h (Balancer.ensure_endpoint sdk c) (λ r. ret (Balancer.store_endpoint sdk c r))
          s)
        (stored_endpoint-HasSpec sdk c (result h (Balancer.ensure_endpoint sdk c) s))

  abbrev Framed : ScalewayCluster → Outcome → Type 0
  Framed c o = HasSpec c o.1

  balancer_step-HasSpec :
      (c c' : ScalewayCluster) (s : S)
      → HasSpec c c'
      → Framed c (result h (balancer_step sdk client c') s)
  unfolding balancer_step
  balancer_step-HasSpec c c' s same =
      let m = Balancer.reconcile sdk (record { client = client; cluster = c' }) in
      let whole =
        HasSpec-trans c c' (result h m s).1 same
          (balancer-HasSpec (record { client = client; cluster = c' }) s) in
      after_step_cases h m _ (λ c''. ret (ok done, with_ready sdk client c'')) s (Framed c)
        (λ t. whole) (λ e. whole) whole

  network_step-HasSpec :
      (c c' : ScalewayCluster) (s : S)
      → HasSpec c c'
      → Framed c (result h (network_step sdk client c') s)
  unfolding network_step after_network
  network_step-HasSpec c c' s same =
      let m = Vpc.reconcile sdk (record { client = client; cluster = c' }) in
      let stored = (result h m s).1 in
      let whole =
        HasSpec-trans c c' stored same (vpc-HasSpec (record { client = client; cluster = c' }) s) in
      let gateway =
        wrapping (Gateway.reconcile (record { client = client; cluster = stored }))
          (wrapped "failed to reconcile vpcgw") in
      after_step_cases h m _ (after_network sdk client) s (Framed c)
        (λ t.
          keep_cases h gateway stored (λ _. balancer_step sdk client stored) t (Framed c)
            (λ _ u _. balancer_step-HasSpec c stored u whole) (λ e. whole) whole)
        (λ e. whole) whole

  pub reconcile_normal-HasSpec :
      (c : ScalewayCluster) (s : S) → Framed c (result h (reconcile_normal sdk client c) s)
  unfolding reconcile_normal reconcile_services
  reconcile_normal-HasSpec c s =
      let c' = with_finalizer sdk client c in
      let with_fds = with_domains sdk client c' in
      let same = with_finalizer-HasSpec sdk client c in
      keep_cases h (patch_finalizer sdk client c) c' (λ _. reconcile_services sdk client with_fds) s
        (Framed c)
        (λ _ t _.
          keep_cases h (Group.reconcile sdk (record { client = client; cluster = with_fds }))
            with_fds (λ _. network_step sdk client with_fds) t (Framed c)
            (λ _ u _. network_step-HasSpec c with_fds u same) (λ e. same) same)
        (λ e. same) same
