-- ===== src/Controller/Cluster/Done.antt =====
-- When `reconcileNormal` of internal/controller/scalewaycluster_controller.go comes to its end, by
-- what its services give.
use cluster_api_provider_sca.Prelude.{◌≡◌, ◌≢◌, ◌↔◌, refl, sym, ◌∙◌, Bool, true, false, String}
use cluster_api_provider_sca.Result.{
  Error, Result, ok, err, panicked, wrap, wrapped, is_load_balancer_not_ready,
}
use cluster_api_provider_sca.Sdk.{Sdk}
use cluster_api_provider_sca.Prog.{Prog, Io, ret, wrapping, Handler, result, final}
use cluster_api_provider_sca.Prog.Laws.{result-bind, final-bind}
use cluster_api_provider_sca.Client.{Client}
use cluster_api_provider_sca.Api.Cluster.{ScalewayCluster}
use cluster_api_provider_sca.Scope.Cluster.{Scope}
use cluster_api_provider_sca.Service.Vpc
use cluster_api_provider_sca.Service.Gateway
use cluster_api_provider_sca.Service.Balancer.Reconcile as Balancer
use cluster_api_provider_sca.Service.Group.Ensure as Group
use cluster_api_provider_sca.Controller.Cluster.{
  Requeue, done, Outcome, keep, after_step, not_ready_error, with_domains, with_ready,
  with_finalizer, patch_finalizer, balancer_step, after_network, network_step, reconcile_services,
  reconcile_normal,
}
use cluster_api_provider_sca.Controller.Cluster.Ready.{Marked, reconcile_normal-Marked}

abbrev Ends : Outcome → Type 0
Ends o = o.0 ≡ ok done

module _ {S : Type 0} (h : Handler S) (m : Io (Unit {0})) (c : ScalewayCluster)
    (f : Unit {0} → Prog Outcome) (s : S) where
  keep_iff :
      Ends (result h (keep m c f) s)
      ↔ ((result h m s ≡ ok tt) × Ends (result h (f tt) (final h m s)))
  keep_iff = rw (result-bind h m _ s) (go (result h m s))
    where
      go :
          (r : Result (Unit {0}))
          → Ends (
              result h
                (elim r as (λ _. Prog Outcome) [
                  | ok a ↦ f a
                  | err e ↦ ret (err e, c)
                  | panicked ↦ ret (panicked, c)
                ])
                (final h m s))
            ↔ ((r ≡ ok tt) × Ends (result h (f tt) (final h m s)))
      go (ok u) = (λ p. (refl, p), λ q. q.1)
      go (err e) = (λ p. absurd (cc), λ q. let g = q.0 in absurd (cc))
      go panicked = (λ p. absurd (cc), λ q. let g = q.0 in absurd (cc))

module _ {S : Type 0} (h : Handler S) (m : Prog (Result (Unit {0}) × ScalewayCluster))
    (handle : Error → Result Requeue) (f : ScalewayCluster → Prog Outcome) (s : S)
    (never : (e : Error) → handle e ≢ ok done) where
  step_iff :
      Ends (result h (after_step m handle f) s)
      ↔ (((result h m s).0 ≡ ok tt) × Ends (result h (f (result h m s).1) (final h m s)))
  step_iff = rw (result-bind h m _ s) (go (result h m s))
    where
      go :
          (p : Result (Unit {0}) × ScalewayCluster)
          → Ends (
              result h
                (elim p.0 as (λ _. Prog Outcome) [
                  | ok u ↦ f p.1
                  | err e ↦ ret (handle e, p.1)
                  | panicked ↦ ret (panicked, p.1)
                ])
                (final h m s))
            ↔ ((p.0 ≡ ok tt) × Ends (result h (f p.1) (final h m s)))
      go (ok u, c) = (λ p. (refl, p), λ q. q.1)
      go (err e, c) = (λ p. absurd (never e p), λ q. let g = q.0 in absurd (cc))
      go (panicked, c) = (λ p. absurd (cc), λ q. let g = q.0 in absurd (cc))

never_done : (e : Error) → (err e ≢ ok done)
never_done e p = absurd (cc)

never_ready : (b : Bool) (e : Error) → not_ready_error b e ≢ ok done
never_ready true e p = absurd (cc)
never_ready false e p = absurd (cc)

wrapped_iff : (text : String) (r : Result (Unit {0})) → (wrapped text r ≡ ok tt) ↔ (r ≡ ok tt)
wrapped_iff text (ok u) = (λ p. refl, λ p. refl)
wrapped_iff text (err e) = (λ p. absurd (cc), λ p. absurd (cc))
wrapped_iff text panicked = (λ p. absurd (cc), λ p. absurd (cc))

module _ {S : Type 0} (h : Handler S) (sdk : Sdk) (client : Client) where
  abbrev pub scope : ScalewayCluster → Scope
  scope c = record { client = client; cluster = c }

  -- The object with its finalizer and its failure domains.
  abbrev pub prepared : ScalewayCluster → ScalewayCluster
  prepared c = with_domains sdk client (with_finalizer sdk client c)

  -- The states after the security groups, the Private Network and the Public Gateway, and the
  -- object that the Private Network leaves.
  abbrev pub with_groups : ScalewayCluster → S → S
  with_groups c s = final h (Group.reconcile sdk (scope c)) s

  abbrev pub networked : ScalewayCluster → S → ScalewayCluster
  networked c s = (result h (Vpc.reconcile sdk (scope c)) s).1

  abbrev pub with_network : ScalewayCluster → S → S
  with_network c s = final h (Vpc.reconcile sdk (scope c)) s

  abbrev pub with_gateway : ScalewayCluster → S → S
  with_gateway c s = final h (Gateway.reconcile (scope c)) s

  -- The Public Gateway and the Load Balancer are reconciled.
  abbrev pub IsConnected : ScalewayCluster → S → Type 0
  IsConnected c s =
      (result h (Gateway.reconcile (scope c)) s ≡ ok tt)
      × ((result h (Balancer.reconcile sdk (scope c)) (with_gateway c s)).0 ≡ ok tt)

  -- The four services are, one after the other, each from the state that the one before leaves.
  abbrev pub IsServed : ScalewayCluster → S → Type 0
  IsServed c s =
      (result h (Group.reconcile sdk (scope c)) s ≡ ok tt)
      × ((result h (Vpc.reconcile sdk (scope c)) (with_groups c s)).0 ≡ ok tt)
      × IsConnected (networked c (with_groups c s)) (with_network c (with_groups c s))

  balancer_iff :
      (c : ScalewayCluster) (s : S)
      → Ends (result h (balancer_step sdk client c) s)
        ↔ ((result h (Balancer.reconcile sdk (scope c)) s).0 ≡ ok tt)
  unfolding balancer_step
  balancer_iff c s =
      let both =
        step_iff h (Balancer.reconcile sdk (scope c))
          (λ e. not_ready_error (is_load_balancer_not_ready e) e)
          (λ c'. ret (ok done, with_ready sdk client c')) s
          (λ e. never_ready (is_load_balancer_not_ready e) e) in
      (λ p. (both.0 p).0, λ q. both.1 (q, refl))

  gateway_iff :
      (c : ScalewayCluster) (s : S)
      → Ends (result h (after_network sdk client c) s) ↔ IsConnected c s
  unfolding after_network
  gateway_iff c s =
      let text : String = "failed to reconcile vpcgw" in
      let m = Gateway.reconcile (scope c) in
      let both = keep_iff h (wrapping m (wrapped text)) c (λ _. balancer_step sdk client c) s in
      let balancer = balancer_iff c (with_gateway c s) in
      let same = wrapped_iff text (result h m s) in
      let run = result-bind h m (λ r. ret (wrapped text r)) s in
      let state = final-bind h m (λ r. ret (wrapped text r)) s in
      (
        λ p.
            let (first, second) = both.0 p in
            (same.0 (sym run ∙ first), balancer.0 (rw (← state) second)),
        λ q. both.1 (run ∙ same.1 q.0, rw state (balancer.1 q.1)),
      )

  services_iff :
      (c : ScalewayCluster) (s : S)
      → Ends (result h (reconcile_services sdk client c) s) ↔ IsServed c s
  unfolding reconcile_services network_step
  services_iff c s =
      let t = with_groups c s in
      let groups =
        keep_iff h (Group.reconcile sdk (scope c)) c (λ _. network_step sdk client c) s in
      let network =
        step_iff h (Vpc.reconcile sdk (scope c)) (λ e. err (wrap "failed to reconcile vpc" e))
          (after_network sdk client) t (λ e. never_done (wrap "failed to reconcile vpc" e)) in
      let gateway = gateway_iff (networked c t) (with_network c t) in
      (
        λ p.
            let (first, second) = groups.0 p in
            let (third, fourth) = network.0 second in (first, third, gateway.0 fourth),
        λ q. groups.1 (q.0, network.1 (q.1, gateway.1 q.2)),
      )

  -- A reconciliation comes to its end exactly when the finalizer is there or was stored, and then
  -- the security groups, the Private Network, the Public Gateway and the Load Balancer are
  -- reconciled with success, in this order, each from the state and the object that the one before
  -- leaves. It marks the object ready exactly then, and leaves the mark otherwise. Whatever happens,
  -- the object that it leaves has the metadata of the one with the finalizer.
  pub reconcile_normal-ready :
      (c : ScalewayCluster) (s : S)
      → (((result h (reconcile_normal sdk client c) s).0 ≡ ok done) ↔ (
          (result h (patch_finalizer sdk client c) s ≡ ok tt)
          × IsServed (prepared c) (final h (patch_finalizer sdk client c) s)))
        × Marked (with_finalizer sdk client c) (result h (reconcile_normal sdk client c) s)
  unfolding reconcile_normal
  reconcile_normal-ready c s =
      let t = final h (patch_finalizer sdk client c) s in
      let first =
        keep_iff h (patch_finalizer sdk client c) (with_finalizer sdk client c)
          (λ _. reconcile_services sdk client (prepared c)) s in
      let services = services_iff (prepared c) t in
      (
        (
          λ p. let (stored, ended) = first.0 p in (stored, services.0 ended),
          λ q. first.1 (q.0, services.1 q.1),
        ),
        reconcile_normal-Marked h sdk client c s,
      )
