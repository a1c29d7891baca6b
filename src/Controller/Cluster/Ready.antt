-- ===== src/Controller/Cluster/Ready.antt =====
-- When the reconciler of a cluster calls the cluster ready.
use cluster_api_provider_sca.Prelude.{
  ◌≡◌, ◌≢◌, ◌⊎◌, inl, inr, Bool-cases, refl, ◌∙◌, Bool, true, false,
}
use cluster_api_provider_sca.Result.{
  Error, Result, ok, err, panicked, is_load_balancer_not_ready, wrapped,
}
use cluster_api_provider_sca.Sdk.{Sdk}
use cluster_api_provider_sca.Prog.{Prog, ret, wrapping, Handler, result, final}
use cluster_api_provider_sca.Prog.Laws.{result-bind}
use cluster_api_provider_sca.Client.{Client}
use cluster_api_provider_sca.Api.Cluster.{ScalewayCluster}
use cluster_api_provider_sca.Scope.Cluster.{
  Scope, set_status_private_network_id, should_manage_private_network,
}
use cluster_api_provider_sca.Service.Vpc
use cluster_api_provider_sca.Service.Vpc.Laws.{reconcile-managed, reconcile-unmanaged}
use cluster_api_provider_sca.Service.Gateway
use cluster_api_provider_sca.Cloud.Network.{PrivateNetwork}
use cluster_api_provider_sca.Api.Cluster.{Endpoint}
use cluster_api_provider_sca.Service.Balancer.Reconcile as Balancer
use cluster_api_provider_sca.Service.Group.Ensure as Group
use cluster_api_provider_sca.Controller.Cluster.{
  Requeue, done, Outcome, after_step, not_ready_error, with_domains, with_ready, with_finalizer,
  patch_finalizer, balancer_step, after_network, network_step, reconcile_services, reconcile_normal,
}
use cluster_api_provider_sca.Controller.Cluster.Laws.{keep_cases}

-- A service leaves the metadata and the readiness of the object.
abbrev Alike : ScalewayCluster → ScalewayCluster → Type 0
Alike c c' = (c'.meta ≡ c.meta) × (c'.status.ready ≡ c.status.ready)

stored_id-Alike :
    (sdk : Sdk) (c : Scope) (r : Result PrivateNetwork) → Alike c.cluster (Vpc.store_id sdk c r).1
unfolding set_status_private_network_id
stored_id-Alike sdk c (ok pn) = (refl, refl)
stored_id-Alike sdk c (err e) = (refl, refl)
stored_id-Alike sdk c panicked = (refl, refl)

stored_endpoint-Alike :
    (sdk : Sdk) (c : Scope) (r : Result Endpoint)
    → Alike c.cluster (Balancer.store_endpoint sdk c r).1
stored_endpoint-Alike sdk c (ok pn) = (refl, refl)
stored_endpoint-Alike sdk c (err e) = (refl, refl)
stored_endpoint-Alike sdk c panicked = (refl, refl)

module _ {S : Type 0} (h : Handler S) (sdk : Sdk) (c : Scope) (s : S) where
  balancer-Alike : Alike c.cluster (result h (Balancer.reconcile sdk c) s).1
  unfolding Balancer.reconcile
  balancer-Alike =
      rw
        (result-bind h (Balancer.ensure_endpoint sdk c) (λ r. ret (Balancer.store_endpoint sdk c r))
          s)
        (stored_endpoint-Alike sdk c _)

  pub vpc-Alike : Alike c.cluster (result h (Vpc.reconcile sdk c) s).1
  vpc-Alike = elim (Bool-cases (should_manage_private_network c.cluster)) [
    | inl managed ↦ rw (reconcile-managed h sdk c s managed).0 (stored_id-Alike sdk c _)
    | inr unmanaged ↦ rw (reconcile-unmanaged h sdk c s unmanaged).0 (refl, refl)
  ]

-- A step that may change the object, followed by a program of which a property holds.
module _ {μ} {S : Type 0} (h : Handler S) (m : Prog (Result (Unit {0}) × ScalewayCluster))
    (handle : Error → Result Requeue) (f : ScalewayCluster → Prog Outcome) (s : S)
    (Q : Outcome → Type μ) where
  pub after_step_cases :
      ((t : S) → Q (result h (f (result h m s).1) t))
      → ((e : Error) → Q (handle e, (result h m s).1))
      → Q (panicked, (result h m s).1)
      → Q (result h (after_step m handle f) s)
  after_step_cases good bad worse = rw (result-bind h m _ s) (go (result h m s) good bad worse)
    where
      go :
          (p : Result (Unit {0}) × ScalewayCluster)
          → ((t : S) → Q (result h (f p.1) t))
          → ((e : Error) → Q (handle e, p.1))
          → Q (panicked, p.1)
          → Q (
              result h
                (elim p.0 as (λ _. Prog Outcome) [
                  | ok u ↦ f p.1
                  | err e ↦ ret (handle e, p.1)
                  | panicked ↦ ret (panicked, p.1)
                ])
                (final h m s))
      go (ok u, c) good bad worse = good _
      go (err e, c) good bad worse = bad e
      go (panicked, c) good bad worse = worse

-- The object that a reconciliation leaves has its metadata, and it is marked ready where the
-- reconciliation went to its end; otherwise the mark is what it was.
abbrev pub Marked : ScalewayCluster → Outcome → Type 0
Marked c o =
    (o.1.meta ≡ c.meta)
    × (((o.0 ≡ ok done) × (o.1.status.ready ≡ true))
        ⊎ ((o.0 ≢ ok done) × (o.1.status.ready ≡ c.status.ready)))

module _ (c c' : ScalewayCluster) (same : Alike c c') where
  unmarked : (e : Error) → Marked c (err e, c')
  unmarked e = (same.0, inr ((λ p. absurd (cc)), same.1))

  crashed : Marked c (panicked, c')
  crashed = (same.0, inr ((λ p. absurd (cc)), same.1))

  not_ready_unmarked : (b : Bool) (e : Error) → Marked c (not_ready_error b e, c')
  not_ready_unmarked true e = (same.0, inr ((λ p. absurd (cc)), same.1))
  not_ready_unmarked false e = unmarked _

Alike-trans : (a b c : ScalewayCluster) → Alike a b → Alike b c → Alike a c
Alike-trans a b c p q = (q.0 ∙ p.0, q.1 ∙ p.1)

module _ {S : Type 0} (h : Handler S) (sdk : Sdk) (client : Client) where
  balancer-Marked :
      (c c' : ScalewayCluster) (s : S)
      → Alike c c'
      → Marked c (result h (balancer_step sdk client c') s)
  unfolding balancer_step
  balancer-Marked c c' s same =
      let m = Balancer.reconcile sdk (record { client = client; cluster = c' }) in
      let whole =
        Alike-trans c c' (result h m s).1 same
          (balancer-Alike h sdk (record { client = client; cluster = c' }) s) in
      after_step_cases h m _ (λ c''. ret (ok done, with_ready sdk client c'')) s (Marked c)
        (λ t. (whole.0, inl (refl, refl)))
        (λ e. not_ready_unmarked c (result h m s).1 whole (is_load_balancer_not_ready e) e)
        (crashed c (result h m s).1 whole)

  network-Marked :
      (c c' : ScalewayCluster) (s : S)
      → Alike c c'
      → Marked c (result h (network_step sdk client c') s)
  unfolding network_step after_network
  network-Marked c c' s same =
      let scope : Scope = record { client = client; cluster = c' } in
      let m = Vpc.reconcile sdk scope in
      let stored = (result h m s).1 in
      let whole = Alike-trans c c' stored same (vpc-Alike h sdk scope s) in
      let gateway =
        wrapping (Gateway.reconcile (record { client = client; cluster = stored }))
          (wrapped "failed to reconcile vpcgw") in
      after_step_cases h m _ (after_network sdk client) s (Marked c)
        (λ t.
          keep_cases h gateway stored (λ _. balancer_step sdk client stored) t (Marked c)
            (λ _ u _. balancer-Marked c stored u whole) (unmarked c stored whole)
            (crashed c stored whole))
        (λ e. unmarked c stored whole _) (crashed c stored whole)

  services-Marked :
      (c c' : ScalewayCluster) (s : S)
      → Alike c c'
      → Marked c (result h (reconcile_services sdk client c') s)
  unfolding reconcile_services
  services-Marked c c' s same =
      let scope : Scope = record { client = client; cluster = c' } in
      keep_cases h (Group.reconcile sdk scope) c' (λ _. network_step sdk client c') s (Marked c)
        (λ _ t _. network-Marked c c' t same) (unmarked c c' same) (crashed c c' same)

  pub reconcile_normal-Marked :
      (c : ScalewayCluster) (s : S)
      → Marked (with_finalizer sdk client c) (result h (reconcile_normal sdk client c) s)
  unfolding reconcile_normal
  reconcile_normal-Marked c s =
      let c' = with_finalizer sdk client c in
      keep_cases h (patch_finalizer sdk client c) c'
        (λ _. reconcile_services sdk client (with_domains sdk client c')) s (Marked c')
        (λ _ t _. services-Marked c' (with_domains sdk client c') t (refl, refl))
        (unmarked c' c' (refl, refl)) (crashed c' c' (refl, refl))
