-- ===== src/Controller/Machine/Done.antt =====
-- When `reconcileNormal` of internal/controller/scalewaymachine_controller.go comes to its end.
use cluster_api_provider_sca.Prelude.{◌≡◌, ◌↔◌, if◌then◌else◌, refl, Bool, true, false}
use cluster_api_provider_sca.Result.{
  Error, Result, ok, err, panicked, is_private_ip_not_found, is_bootstrap_data_not_ready,
}
use cluster_api_provider_sca.Sdk.{Sdk}
use cluster_api_provider_sca.Prog.{Prog, ret, bind, Handler, result, final}
use cluster_api_provider_sca.Prog.Laws.{result-bind}
use cluster_api_provider_sca.Api.Machine.{ScalewayMachine}
use cluster_api_provider_sca.Scope.Machine.{MachineScope}
use cluster_api_provider_sca.Service.Instance.Reconcile as Reconciler
use cluster_api_provider_sca.Controller.Cluster.{done, after}
use cluster_api_provider_sca.Controller.Machine.{
  Outcome, with_finalizer, patch_finalizer, waiting, instance_outcome, reconcile_instance,
  reconcile_normal,
}
use cluster_api_provider_sca.Controller.Machine.Laws.{Marked, normal-Marked}

module _ {S : Type 0} (h : Handler S) (sdk : Sdk) where
  -- The infrastructure of the cluster is ready, and the instance service succeeds.
  abbrev pub IsServed : MachineScope → S → Type 0
  IsServed m s =
      (m.owner.infrastructure_ready ≡ true) × ((result h (Reconciler.reconcile sdk m) s).0 ≡ ok tt)

  outcome_iff :
      (p : Result (Unit {0}) × ScalewayMachine) → ((instance_outcome p).0 ≡ ok done) ↔ (p.0 ≡ ok tt)
  outcome_iff (ok u, m) = (λ _. refl, λ _. refl)
  outcome_iff (err e, m) = (
    λ q. absurd (never_done (is_private_ip_not_found e) (is_bootstrap_data_not_ready e) e q),
    λ q. absurd (cc),
  )
    where
      never_done : (b b' : Bool) (e : Error) → waiting b b' e ≡ ok done → ⊥
      never_done true b' e q = absurd (cc)
      never_done false true e q = absurd (cc)
      never_done false false e q = absurd (cc)
  outcome_iff (panicked, m) = (λ q. absurd (cc), λ q. absurd (cc))

  instance_iff :
      (m : MachineScope) (s : S)
      → ((result h (reconcile_instance sdk m) s).0 ≡ ok done) ↔ IsServed m s
  unfolding reconcile_instance
  instance_iff m s = by_readiness m.owner.infrastructure_ready
    where
      by_readiness :
          (b : Bool)
          → ((result h
                (if b
                  then bind (Reconciler.reconcile sdk m) (λ p. ret (instance_outcome p))
                  else ret (ok (after 2), m.scaleway_machine))
                s).0
              ≡ ok done)
            ↔ ((b ≡ true) × ((result h (Reconciler.reconcile sdk m) s).0 ≡ ok tt))
      by_readiness true =
          let both = outcome_iff (result h (Reconciler.reconcile sdk m) s) in
          rw (result-bind h (Reconciler.reconcile sdk m) (λ p. ret (instance_outcome p)) s)
            (λ q. (refl, both.0 q), λ q. both.1 q.1)
      by_readiness false = (λ q. absurd (cc), λ q. let f = q.0 in absurd (cc))

  -- A reconciliation comes to its end exactly when the finalizer is there or was stored, the
  -- infrastructure of the cluster is ready, and the instance service succeeds after that, on the
  -- object with the finalizer. It marks the machine ready exactly then, and leaves the mark
  -- otherwise. Whatever happens, the object that it leaves has the metadata of the one with the
  -- finalizer.
  pub machine_normal-ready :
      (m : MachineScope) (s : S)
      → let m' = record m { scaleway_machine = with_finalizer m.scaleway_machine } in
        (((result h (reconcile_normal sdk m) s).0 ≡ ok done) ↔ (
          (result h (patch_finalizer m.scaleway_machine) s ≡ ok tt)
          × IsServed m' (final h (patch_finalizer m.scaleway_machine) s)))
        × Marked (with_finalizer m.scaleway_machine) (result h (reconcile_normal sdk m) s)
  unfolding reconcile_normal
  machine_normal-ready m s = (
    rw (result-bind h (patch_finalizer m.scaleway_machine) _ s)
        (go (result h (patch_finalizer m.scaleway_machine) s)),
    normal-Marked h sdk m s,
  )
    where
      go :
          (r : Result (Unit {0}))
          → ((result h
                (elim r as (λ _. Prog Outcome) [
                  | ok u ↦
                      reconcile_instance sdk
                        (record m { scaleway_machine = with_finalizer m.scaleway_machine })
                  | err e ↦ ret (err e, with_finalizer m.scaleway_machine)
                  | panicked ↦ ret (panicked, with_finalizer m.scaleway_machine)
                ])
                (final h (patch_finalizer m.scaleway_machine) s)).0
              ≡ ok done)
            ↔ ((r ≡ ok tt)
                × IsServed
                    (record m { scaleway_machine = with_finalizer m.scaleway_machine })
                    (final h (patch_finalizer m.scaleway_machine) s))
      go (ok u) =
          let both =
            instance_iff (record m { scaleway_machine = with_finalizer m.scaleway_machine })
              (final h (patch_finalizer m.scaleway_machine) s) in
          (λ q. (refl, both.0 q), λ q. both.1 q.1)
      go (err e) = (λ q. absurd (cc), λ q. let f = q.0 in absurd (cc))
      go panicked = (λ q. absurd (cc), λ q. let f = q.0 in absurd (cc))
