-- ===== src/Controller/Machine/Laws.antt =====
-- What the reconciler of a machine leaves in the object, and when it asks for anything.
use cluster_api_provider_sca.Prelude.{
  ◌≡◌, ◌≢◌, ◌⊎◌, inl, inr, if◌then◌else◌, refl, Bool, true, false, [], ◌∷◌, arith,
}
use cluster_api_provider_sca.Result.{
  Error, Result, ok, err, panicked, is_private_ip_not_found, is_bootstrap_data_not_ready,
}
use cluster_api_provider_sca.Sdk.{Sdk}
use cluster_api_provider_sca.Cloud.{kube_api}
use cluster_api_provider_sca.Cloud.Kube.{patch_machine}
use cluster_api_provider_sca.Prog.{Prog, ret, bind, Handler, result, final, requests}
use cluster_api_provider_sca.Prog.Laws.{result-bind}
use cluster_api_provider_sca.Api.Machine.{ScalewayMachine, machine_finalizer}
use cluster_api_provider_sca.Cloud.Instance.{Server}
use cluster_api_provider_sca.Scope.Machine.{MachineScope, patch_object}
use cluster_api_provider_sca.Service.Instance.Reconcile as Reconciler
use cluster_api_provider_sca.Service.Instance.Addresses.{MachineIps}
use cluster_api_provider_sca.Service.Instance.Delete as Deleter
use cluster_api_provider_sca.Controller.Finalizers.{has_finalizer}
use cluster_api_provider_sca.Controller.Cluster.{done, after}
use cluster_api_provider_sca.Controller.Machine.{
  Outcome, with_finalizer, without_finalizer, patch_finalizer, waiting, instance_outcome,
  delete_outcome, reconcile_instance, reconcile_normal, reconcile_delete,
}

-- What a deletion gives, from what the instance service gave: the object without its finalizer
-- where it succeeded, and the object as it was otherwise.
abbrev pub Released : ScalewayMachine → Result (Unit {0}) → Outcome → Type 0
Released m r o =
    ((r ≡ ok tt) × (o ≡ (ok done, without_finalizer m)))
    ⊎ ((r ≢ ok tt) × (o.0 ≢ ok done) × (o.1 ≡ m))

released : (m : ScalewayMachine) (r : Result (Unit {0})) → Released m r (delete_outcome m r)
released m (ok u) = inl (refl, refl)
released m (err e) = inr ((λ p. absurd (cc)), (λ p. absurd (cc)), refl)
released m panicked = inr ((λ p. absurd (cc)), (λ p. absurd (cc)), refl)

-- A deletion removes the finalizer of the machine and comes to its end exactly when the instance
-- service deleted what the machine stands for, and leaves the object as it was otherwise.
pub machine_delete-finalizer :
    {S : Type 0} (h : Handler S) (m : MachineScope) (s : S)
    → Released m.scaleway_machine (result h (Deleter.delete m) s) (result h (reconcile_delete m) s)
unfolding reconcile_delete
machine_delete-finalizer h m s =
    rw (result-bind h (Deleter.delete m) (λ r. ret (delete_outcome m.scaleway_machine r)) s)
      (released m.scaleway_machine _)

-- The object that a reconciliation leaves has its metadata, and it is marked ready where the
-- reconciliation went to its end; otherwise the mark is what it was.
abbrev pub Marked : ScalewayMachine → Outcome → Type 0
Marked m o =
    (o.1.meta ≡ m.meta)
    × (((o.0 ≡ ok done) × (o.1.status.ready ≡ true))
        ⊎ ((o.0 ≢ ok done) × (o.1.status.ready ≡ m.status.ready)))

unmarked : (m : ScalewayMachine) (b b' : Bool) (e : Error) → Marked m (waiting b b' e, m)
unmarked m true b' e = (refl, inr ((λ p. absurd (cc)), refl))
unmarked m false true e = (refl, inr ((λ p. absurd (cc)), refl))
unmarked m false false e = (refl, inr ((λ p. absurd (cc)), refl))

crashed : (m : ScalewayMachine) → Marked m (panicked, m)
crashed m = (refl, inr ((λ p. absurd (cc)), refl))

stored-Marked :
    (sdk : Sdk) (m : MachineScope) (r : Result (Server × MachineIps))
    → Marked m.scaleway_machine (instance_outcome (Reconciler.store_server sdk m r))
stored-Marked sdk m (ok p) = (refl, inl (refl, refl))
stored-Marked sdk m (err e) =
    unmarked m.scaleway_machine (is_private_ip_not_found e) (is_bootstrap_data_not_ready e) e
stored-Marked sdk m panicked = crashed m.scaleway_machine

-- A property of what a reconciliation gives, from its four ways to end: with what the instance
-- service gave, waiting for the infrastructure, and with an error or a panic of the first patch.
module _ {ℓ} {S : Type 0} (h : Handler S) (sdk : Sdk) (P : Outcome → Type ℓ) where
  instance_ends :
      (m : MachineScope)
      → ((r : Result (Server × MachineIps))
          → P (instance_outcome (Reconciler.store_server sdk m r)))
      → P (ok (after 2), m.scaleway_machine)
      → (s : S) → P (result h (reconcile_instance sdk m) s)
  unfolding reconcile_instance Reconciler.reconcile
  instance_ends m stored waits s = by_readiness m.owner.infrastructure_ready
    where
      store : Result (Server × MachineIps) → Prog (Result (Unit {0}) × ScalewayMachine)
      store r = ret (Reconciler.store_server sdk m r)

      by_readiness :
          (b : Bool)
          → P (
              result h
                (if b
                  then bind (Reconciler.reconcile sdk m) (λ p. ret (instance_outcome p))
                  else ret (ok (after 2), m.scaleway_machine))
                s)
      by_readiness true =
          rw
            (
              result-bind h (Reconciler.reconcile sdk m) (λ p. ret (instance_outcome p)) s,
              result-bind h (Reconciler.ensure_server sdk m) store s,
            )
            (stored (result h (Reconciler.ensure_server sdk m) s))
      by_readiness false = waits

  pub normal_ends :
      (m : MachineScope)
      → (let m' = record m { scaleway_machine = with_finalizer m.scaleway_machine } in
          ((r : Result (Server × MachineIps))
            → P (instance_outcome (Reconciler.store_server sdk m' r)))
          → P (ok (after 2), m'.scaleway_machine)
          → ((e : Error) → P (err e, m'.scaleway_machine))
          → P (panicked, m'.scaleway_machine)
          → (s : S) → P (result h (reconcile_normal sdk m) s))
  unfolding reconcile_normal
  normal_ends m stored waits failed crash s =
      rw (result-bind h (patch_finalizer m.scaleway_machine) _ s)
        (go (result h (patch_finalizer m.scaleway_machine) s))
    where
      go :
          (r : Result (Unit {0}))
          → P (
              result h
                (elim r as (λ _. Prog Outcome) [
                  | ok u ↦
                      reconcile_instance sdk
                        (record m { scaleway_machine = with_finalizer m.scaleway_machine })
                  | err e ↦ ret (err e, with_finalizer m.scaleway_machine)
                  | panicked ↦ ret (panicked, with_finalizer m.scaleway_machine)
                ])
                (final h (patch_finalizer m.scaleway_machine) s))
      go (ok u) = instance_ends _ stored waits _
      go (err e) = failed e
      go panicked = crash

module _ {S : Type 0} (h : Handler S) (sdk : Sdk) where
  pub normal-Marked :
      (m : MachineScope) (s : S)
      → Marked (with_finalizer m.scaleway_machine) (result h (reconcile_normal sdk m) s)
  normal-Marked m =
      let m' = with_finalizer m.scaleway_machine in
      normal_ends h sdk (Marked m') m (stored-Marked sdk (record m { scaleway_machine = m' }))
        (refl, inr ((λ p. absurd (cc)), refl)) (unmarked m' false false) (crashed m')

  -- Where the finalizer has to be added and storing it fails, nothing else is asked for.
  pub machine_normal-unstored :
      (m : MachineScope) (s : S) {e : Error}
      → has_finalizer machine_finalizer m.scaleway_machine.meta ≡ false
      → (h (kube_api (patch_machine (with_finalizer m.scaleway_machine))) s).0 ≡ err e
      → (result h (reconcile_normal sdk m) s ≡ (err e, with_finalizer m.scaleway_machine))
        × (requests h (reconcile_normal sdk m) s
            ≡ kube_api (patch_machine (with_finalizer m.scaleway_machine)) ∷ [])
  unfolding reconcile_normal patch_finalizer patch_object
  machine_normal-unstored m s absent failed = ground arith

  -- Where the finalizer is there and the infrastructure of the cluster is not ready, the reconciler
  -- asks for nothing, leaves the object and waits.
  pub machine_normal-waits :
      (m : MachineScope) (s : S)
      → has_finalizer machine_finalizer m.scaleway_machine.meta ≡ true
      → m.owner.infrastructure_ready ≡ false
      → (result h (reconcile_normal sdk m) s ≡ (ok (after 2), m.scaleway_machine))
        × (requests h (reconcile_normal sdk m) s ≡ [])
  unfolding reconcile_normal patch_finalizer reconcile_instance
  machine_normal-waits m s present waits = ground arith
