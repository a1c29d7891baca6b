-- ===== src/Controller/Cluster/Order.antt =====
-- The order in which a deletion of a cluster deletes its parts.
use cluster_api_provider_sca.Prelude.{◌≡◌, refl, ap, sym, ◌∙◌, Bool, true, false, List, ◌++◌}
use mathlib.Core.List.{append-nil}
use cluster_api_provider_sca.Result.{Error, Result, ok, err, panicked, is_precondition_failed}
use cluster_api_provider_sca.Sdk.{Sdk}
use cluster_api_provider_sca.Cloud.{Request}
use cluster_api_provider_sca.Prog.{Prog, Io, ret, bind, Handler, result, final, changes}
use cluster_api_provider_sca.Prog.Laws.{result-bind, changes-bind}
use cluster_api_provider_sca.Client.{Client}
use cluster_api_provider_sca.Api.Cluster.{ScalewayCluster}
use cluster_api_provider_sca.Scope.Cluster.{Scope}
use cluster_api_provider_sca.Service.Vpc
use cluster_api_provider_sca.Service.Gateway
use cluster_api_provider_sca.Service.Balancer.Reconcile as Balancer
use cluster_api_provider_sca.Service.Group.Ensure as Group
use cluster_api_provider_sca.Controller.Cluster.{
  Requeue, done, Outcome, keep, without_finalizer, precondition_error, delete_network,
  reconcile_delete,
}

-- A step that succeeds, followed by what succeeds.
record Step {ℓ} {S : Type 0} {A : Type ℓ} (h : Handler S) (m : Io A) (f : A → Prog Outcome) (s : S)
    (asked : List Request) : Type ℓ where
  value : A
  first : result h m s ≡ ok value
  second : (result h (f value) (final h m s)).0 ≡ ok done
  changed : asked ≡ changes h m s ++ changes h (f value) (final h m s)

module _ {ℓ} {S : Type 0} {A : Type ℓ} (h : Handler S) (m : Io A) (c : ScalewayCluster)
    (f : A → Prog Outcome) (failure : Error → Result Requeue) (s : S) where
  abbrev after_result : Result A → Prog Outcome
  after_result (ok a) = f a
  after_result (err e) = ret (failure e, c)
  after_result panicked = ret (panicked, c)

  Step-of :
      ((e : Error) → failure e ≡ ok done → ⊥)
      → (r : Result A) → result h m s ≡ r
      → (result h (after_result r) (final h m s)).0 ≡ ok done
      → changes h (bind m after_result) s
        ≡ changes h m s ++ changes h (after_result r) (final h m s)
      → Step h m f s (changes h (bind m after_result) s)
  Step-of never (ok a) e second changed = record {
    value = a;
    first = e;
    second = second;
    changed = changed;
  }
  Step-of never (err e') e second changed = absurd (never e' second)
  Step-of never panicked e second changed = absurd (cc)

  step :
      ((e : Error) → failure e ≡ ok done → ⊥)
      → (result h (bind m after_result) s).0 ≡ ok done
      → Step h m f s (changes h (bind m after_result) s)
  step never finished =
      Step-of never (result h m s) refl
        (sym (ap (λ (o : Outcome). o.0) (result-bind h m after_result s)) ∙ finished)
        (changes-bind h m after_result s)

never_done : (e : Error) → err e ≡ ok done → ⊥
never_done e p = absurd (cc)

never_ignored : (b : Bool) (e : Error) → precondition_error b e ≡ ok done → ⊥
never_ignored true e p = absurd (cc)
never_ignored false e p = absurd (cc)

module _ {S : Type 0} (h : Handler S) (sdk : Sdk) (client : Client) (c : ScalewayCluster)
    (s : S) where
  abbrev pub scope : Scope
  scope = record { client = client; cluster = c }

  -- The states after the Load Balancer, the Public Gateway and the Private Network.
  abbrev pub without_balancer : S
  without_balancer = final h (Balancer.delete scope) s

  abbrev pub without_gateway : S
  without_gateway = final h (Gateway.delete scope) without_balancer

  abbrev pub without_network : S
  without_network = final h (Vpc.delete sdk scope) without_gateway

  -- A deletion of a cluster that succeeds changes what the deletions of its Load Balancer, its
  -- Public Gateway, its Private Network and its security groups change, in this order, each from
  -- the state that the one before leaves, and each of them succeeds.
  pub reconcile_delete-order :
      (result h (reconcile_delete sdk client c) s).0 ≡ ok done
      → (changes h (reconcile_delete sdk client c) s
          ≡ changes h (Balancer.delete scope) s
            ++ (changes h (Gateway.delete scope) without_balancer
                ++ (changes h (Vpc.delete sdk scope) without_gateway
                    ++ changes h (Group.delete sdk scope) without_network)))
        × (result h (Balancer.delete scope) s ≡ ok tt)
        × (result h (Gateway.delete scope) without_balancer ≡ ok tt)
        × (result h (Vpc.delete sdk scope) without_gateway ≡ ok tt)
        × (result h (Group.delete sdk scope) without_network ≡ ok tt)
  unfolding reconcile_delete delete_network
  reconcile_delete-order finished =
      let last = λ (u : Unit {0}). ret (ok done, without_finalizer sdk client c) in
      let groups = keep (Group.delete sdk scope) c last in
      let network = delete_network sdk client c groups in
      let gateway = keep (Gateway.delete scope) c (λ _. network) in
      let one = step h (Balancer.delete scope) c (λ _. gateway) err s never_done finished in
      let two =
        step h (Gateway.delete scope) c (λ _. network) err without_balancer never_done one.second in
      let three =
        step h (Vpc.delete sdk scope) c (λ _. groups)
          (λ e. precondition_error (is_precondition_failed e) e) without_gateway
          (λ e. never_ignored (is_precondition_failed e) e) two.second in
      let four =
        step h (Group.delete sdk scope) c last err without_network never_done three.second in
      (
        one.changed
            ∙ ap (λ l. changes h (Balancer.delete scope) s ++ l)
                (two.changed
                  ∙ ap (λ l. changes h (Gateway.delete scope) without_balancer ++ l)
                      (three.changed
                        ∙ ap (λ l. changes h (Vpc.delete sdk scope) without_gateway ++ l)
                            (four.changed ∙ append-nil _))),
        one.first,
        two.first,
        three.first,
        four.first,
      )
