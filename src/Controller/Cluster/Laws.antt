-- ===== src/Controller/Cluster/Laws.antt =====
-- What the reconciler of a cluster leaves in the object.
use cluster_api_provider_sca.Prelude.{◌≡◌, ◌≢◌, ◌⊎◌, inl, inr, refl, Bool, true, false}
use cluster_api_provider_sca.Result.{Error, Result, ok, err, panicked, is_precondition_failed}
use cluster_api_provider_sca.Sdk.{Sdk}
use cluster_api_provider_sca.Prog.{Prog, Io, ret, Handler, result, final}
use cluster_api_provider_sca.Prog.Laws.{result-bind}
use cluster_api_provider_sca.Client.{Client}
use cluster_api_provider_sca.Api.Cluster.{ScalewayCluster}
use cluster_api_provider_sca.Scope.Cluster.{Scope}
use cluster_api_provider_sca.Service.Vpc
use cluster_api_provider_sca.Service.Gateway
use cluster_api_provider_sca.Service.Balancer.Reconcile as Balancer
use cluster_api_provider_sca.Service.Group.Ensure as Group
use cluster_api_provider_sca.Controller.Cluster.{
  done, Outcome, keep, without_finalizer, delete_network, reconcile_delete, precondition_error,
}

-- A step that keeps the object, followed by a program of which a property holds.
module _ {ℓ μ} {S : Type 0} {A : Type ℓ} (h : Handler S) (m : Io A) (c : ScalewayCluster)
    (f : A → Prog Outcome) (s : S) (Q : Outcome → Type μ) where
  pub keep_cases :
      ((a : A) (t : S) → result h m s ≡ ok a → Q (result h (f a) t))
      → ((e : Error) → Q (err e, c))
      → Q (panicked, c)
      → Q (result h (keep m c f) s)
  keep_cases good bad worse = rw (result-bind h m _ s) (go (result h m s) refl)
    where
      go :
          (r : Result A)
          → result h m s ≡ r
          → Q (
              result h
                (elim r as (λ _. Prog Outcome) [
                  | ok a ↦ f a
                  | err e ↦ ret (err e, c)
                  | panicked ↦ ret (panicked, c)
                ])
                (final h m s))
      go (ok a) e = good a _ e
      go (err e') e = bad e'
      go panicked e = worse

module _ {S : Type 0} (h : Handler S) (sdk : Sdk) (client : Client) (c : ScalewayCluster) where
  -- What a deletion may leave: the object without its finalizer where it succeeded, and the object
  -- as it was otherwise.
  abbrev Released : Outcome → Type 0
  Released o =
      ((o.0 ≡ ok done) × (o.1 ≡ without_finalizer sdk client c)) ⊎ ((o.0 ≢ ok done) × (o.1 ≡ c))

  failed : (e : Error) → Released (err e, c)
  failed e = inr ((λ p. absurd (cc)), refl)

  crashed : Released (panicked, c)
  crashed = inr ((λ p. absurd (cc)), refl)

  delete_network_cases :
      (s : S) (rest : Prog Outcome)
      → ((t : S) → Released (result h rest t))
      → Released (result h (delete_network sdk client c rest) s)
  unfolding delete_network
  delete_network_cases s rest later =
      let m = Vpc.delete sdk (record { client = client; cluster = c }) in
      rw (result-bind h m _ s) (go (result h m s))
    where
      waiting : (b : Bool) (e : Error) → Released (precondition_error b e, c)
      waiting true e = inr ((λ p. absurd (cc)), refl)
      waiting false e = failed e

      go :
          (r : Result (Unit {0}))
          → Released (
              result h
                (elim r as (λ _. Prog Outcome) [
                  | ok u ↦ rest
                  | err e ↦ ret (precondition_error (is_precondition_failed e) e, c)
                  | panicked ↦ ret (panicked, c)
                ])
                (final h (Vpc.delete sdk (record { client = client; cluster = c })) s))
      go (ok u) = later _
      go (err e) = waiting (is_precondition_failed e) e
      go panicked = crashed

  -- A deletion removes the finalizer of the object exactly when it succeeds. Whatever fails, and
  -- while something waits, it leaves the object as it was.
  pub reconcile_delete-finalizer : (s : S) → Released (result h (reconcile_delete sdk client c) s)
  unfolding reconcile_delete
  reconcile_delete-finalizer s =
      let scope : Scope = record { client = client; cluster = c } in
      let last = λ (u : Unit {0}). ret (ok done, without_finalizer sdk client c) in
      let groups = keep (Group.delete sdk scope) c last in
      let network = delete_network sdk client c groups in
      let gateway = keep (Gateway.delete scope) c (λ _. network) in
      keep_cases h (Balancer.delete scope) c (λ _. gateway) s Released
        (λ _ t _.
          keep_cases h (Gateway.delete scope) c (λ _. network) t Released
            (λ _ u _. delete_network_cases u groups (λ v.
              keep_cases h (Group.delete sdk scope) c last v Released (λ _ w _. inl (refl, refl))
                failed crashed))
            failed crashed)
        failed crashed
