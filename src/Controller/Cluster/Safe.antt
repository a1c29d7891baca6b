-- ===== src/Controller/Cluster/Safe.antt =====
-- Panics of `reconcileNormal` and `reconcileDelete` of
-- internal/controller/scalewaycluster_controller.go.
use cluster_api_provider_sca.Prelude.{Bool, true, false, Bool-cases, inl, inr, arith}
use cluster_api_provider_sca.Result.{
  Error, Result, ok, err, panicked, wrapped, wrap, is_load_balancer_not_ready,
}
use cluster_api_provider_sca.Sdk.{Sdk}
use cluster_api_provider_sca.Sdk.Plain.{IsPlain}
use cluster_api_provider_sca.Prog.{Prog, Io, ret, wrapping, Handler, result, final}
use cluster_api_provider_sca.Prog.Laws.{result-bind}
use cluster_api_provider_sca.Prog.Runs.{AnyError, Any, Meets, Runs, Runs-wrapping, IsCalm}
use cluster_api_provider_sca.Client.{Client}
use cluster_api_provider_sca.Api.Cluster.{ScalewayCluster, Endpoint, cluster_finalizer}
use cluster_api_provider_sca.Scope.Cluster.{
  Scope, patch_object, has_private_network, should_manage_private_network,
}
use cluster_api_provider_sca.Service.Vpc
use cluster_api_provider_sca.Service.Vpc.Safe.{IsStored, IsUsable, vpc-Runs, vpc_delete-Runs}
use cluster_api_provider_sca.Service.Gateway
use cluster_api_provider_sca.Service.Gateway.Safe.{gateway-Runs, gateway_delete-Runs}
use cluster_api_provider_sca.Service.Balancer.Reconcile as Balancer
use cluster_api_provider_sca.Service.Balancer.Reconcile.Safe.{balancer-Runs, balancer_delete-Runs}
use cluster_api_provider_sca.Service.Group.Ensure as Group
use cluster_api_provider_sca.Service.Group.Ensure.Safe.{group_reconcile-Runs, group_delete-Runs}
use cluster_api_provider_sca.Controller.Finalizers.{has_finalizer}
use cluster_api_provider_sca.Controller.Cluster.{
  Requeue, done, Outcome, keep, after_step, not_ready_error, with_domains, with_finalizer,
  with_ready, without_finalizer, patch_finalizer, balancer_step, after_network, network_step,
  reconcile_services, reconcile_normal, delete_network, reconcile_delete,
}

-- A reconciliation that did not panic, and unless it failed, left an object of which `P` holds.
abbrev pub Fine : (ScalewayCluster → Type 0) → Outcome → Type 0
Fine P o = Meets AnyError (λ _. P o.1) o.0

module _ {ℓ} {S : Type 0} {A : Type ℓ} (h : Handler S) (m : Io A) (c : ScalewayCluster)
    (f : A → Prog Outcome) (P : ScalewayCluster → Type 0) where
  keep-Fine :
      Runs h AnyError Any m
      → ((a : A) (t : S) → Fine P (result h (f a) t))
      → (s : S) → Fine P (result h (keep m c f) s)
  keep-Fine first rest s = rw (result-bind h m _ s) (go (result h m s) (first s))
    where
      go :
          (r : Result A)
          → Meets AnyError Any r
          → Fine P (
              result h
                (elim r as (λ _. Prog Outcome) [
                  | ok a ↦ f a
                  | err e ↦ ret (err e, c)
                  | panicked ↦ ret (panicked, c)
                ])
                (final h m s))
      go (ok a) fine = rest a _
      go (err e) fine = tt
      go panicked fine = fine

module _ {S : Type 0} (h : Handler S) (m : Prog (Result (Unit {0}) × ScalewayCluster))
    (handle : Error → Result Requeue) (f : ScalewayCluster → Prog Outcome)
    (P Q : ScalewayCluster → Type 0) where
  after_step-Fine :
      (s : S)
      → Meets AnyError (λ _. P (result h m s).1) (result h m s).0
      → ((c : ScalewayCluster) (t : S) → P c → Fine Q (result h (f c) t))
      → ((e : Error) → Fine Q (handle e, (result h m s).1))
      → Fine Q (result h (after_step m handle f) s)
  after_step-Fine s first rest failed = rw (result-bind h m _ s) (go (result h m s) first failed)
    where
      go :
          (p : Result (Unit {0}) × ScalewayCluster)
          → Meets AnyError (λ _. P p.1) p.0
          → ((e : Error) → Fine Q (handle e, p.1))
          → Fine Q (
              result h
                (elim p.0 as (λ _. Prog Outcome) [
                  | ok u ↦ f p.1
                  | err e ↦ ret (handle e, p.1)
                  | panicked ↦ ret (panicked, p.1)
                ])
                (final h m s))
      go (ok u, c) fine failed = rest c _ fine
      go (err e, c) fine failed = failed e
      go (panicked, c) fine failed = fine

stored_endpoint-IsStored :
    (sdk : Sdk) (c : Scope) (r : Result Endpoint)
    → IsStored c.cluster
    → IsStored (Balancer.store_endpoint sdk c r).1
unfolding has_private_network
stored_endpoint-IsStored sdk c (ok e) stored = stored
stored_endpoint-IsStored sdk c (err e) stored = stored
stored_endpoint-IsStored sdk c panicked stored = stored

module _ {S : Type 0} (h : Handler S) (calm : IsCalm h) (sdk : Sdk) (plain : IsPlain sdk)
    (client : Client) where
  balancer_step-Fine :
      (c : ScalewayCluster)
      → IsStored c
      → (s : S) → Fine IsStored (result h (balancer_step sdk client c) s)
  unfolding balancer_step Balancer.reconcile has_private_network
  balancer_step-Fine c stored s =
      let scope : Scope = record { client = client; cluster = c } in
      let m = Balancer.reconcile sdk scope in
      let kept : IsStored (result h m s).1 =
        rw
          (result-bind h (Balancer.ensure_endpoint sdk scope)
            (λ r. ret (Balancer.store_endpoint sdk scope r)) s)
          (stored_endpoint-IsStored sdk scope _ stored) in
      after_step-Fine h m _ (λ c'. ret (ok done, with_ready sdk client c')) IsStored IsStored s
        (with_post (result h m s) kept (balancer-Runs h calm sdk plain scope stored s))
        (λ c' t kept'. kept')
        (λ e. not_ready (is_load_balancer_not_ready e) e (result h m s).1 kept)
    where
      with_post :
          (p : Result (Unit {0}) × ScalewayCluster)
          → IsStored p.1
          → Meets AnyError Any p.0
          → Meets AnyError (λ _. IsStored p.1) p.0
      with_post (ok u, c') kept fine = kept
      with_post (err e, c') kept fine = tt
      with_post (panicked, c') kept fine = fine

      not_ready :
          (b : Bool) (e : Error) (c' : ScalewayCluster)
          → IsStored c'
          → Fine IsStored (not_ready_error b e, c')
      not_ready true e c' kept = kept
      not_ready false e c' kept = tt

  network_step-Fine :
      (c : ScalewayCluster)
      → IsUsable c
      → (s : S) → Fine IsStored (result h (network_step sdk client c) s)
  unfolding network_step after_network
  network_step-Fine c usable s =
      let m = Vpc.reconcile sdk (record { client = client; cluster = c }) in
      after_step-Fine h m (λ e. err (wrap "failed to reconcile vpc" e)) (after_network sdk client)
        IsStored IsStored s
        (vpc-Runs h calm sdk plain (record { client = client; cluster = c }) usable s)
        (λ c' t stored.
          let gateway = Gateway.reconcile (record { client = client; cluster = c' }) in
          keep-Fine h (wrapping gateway (wrapped "failed to reconcile vpcgw")) c'
            (λ _. balancer_step sdk client c') IsStored
            (Runs-wrapping h Any "failed to reconcile vpcgw" gateway
              (gateway-Runs h calm (record { client = client; cluster = c' }) stored))
            (λ _ u. balancer_step-Fine c' stored u) t)
        (λ e. tt)

  services-Fine :
      (c : ScalewayCluster)
      → IsUsable c
      → (s : S) → Fine IsStored (result h (reconcile_services sdk client c) s)
  unfolding reconcile_services
  services-Fine c usable =
      let scope : Scope = record { client = client; cluster = c } in
      keep-Fine h (Group.reconcile sdk scope) c (λ _. network_step sdk client c) IsStored
        (group_reconcile-Runs h calm sdk plain scope) (λ _ t. network_step-Fine c usable t)

  patch-Runs : (c : ScalewayCluster) → Runs h AnyError Any (patch_finalizer sdk client c)
  unfolding patch_finalizer patch_object
  patch-Runs c s = grind (arith, calm)

  finalized-IsUsable :
      (c : ScalewayCluster)
      → IsUsable c
      → IsUsable (with_domains sdk client (with_finalizer sdk client c))
  unfolding should_manage_private_network has_private_network
  finalized-IsUsable c usable = elim (Bool-cases (has_finalizer cluster_finalizer c.meta)) [
    | inl has ↦ rw has usable
    | inr not_yet ↦ rw not_yet usable
  ]

  -- `reconcileNormal` of a cluster never panics where no call and no function of a library panics and
  -- the status has a place for the identifier of a Private Network that the user gave; and unless it
  -- fails, a cluster with a Private Network is left with a place for its identifier in the status: the
  -- network of the status is not nil.
  pub reconcile_normal-Fine :
      (c : ScalewayCluster)
      → IsUsable c
      → (s : S) → Fine IsStored (result h (reconcile_normal sdk client c) s)
  unfolding reconcile_normal
  reconcile_normal-Fine c usable =
      let c' = with_finalizer sdk client c in
      keep-Fine h (patch_finalizer sdk client c) c'
        (λ _. reconcile_services sdk client (with_domains sdk client c')) IsStored (patch-Runs c)
        (λ _ t. services-Fine (with_domains sdk client c') (finalized-IsUsable c usable) t)

  delete_network-Fine :
      (c : ScalewayCluster) (rest : Prog Outcome)
      → ((t : S) → Fine (λ _. Unit {0}) (result h rest t))
      → (s : S) → Fine (λ _. Unit {0}) (result h (delete_network sdk client c rest) s)
  unfolding delete_network
  delete_network-Fine c rest later s =
      let m = Vpc.delete sdk (record { client = client; cluster = c }) in
      let deleted = vpc_delete-Runs h calm sdk plain (record { client = client; cluster = c }) s in
      let whole = result-bind {B = Outcome} h m in rw whole (grind (arith, deleted, later))

  pub reconcile_delete-Fine :
      (c : ScalewayCluster) (s : S)
      → Fine (λ _. Unit {0}) (result h (reconcile_delete sdk client c) s)
  unfolding reconcile_delete
  reconcile_delete-Fine c =
      let scope : Scope = record { client = client; cluster = c } in
      let last = λ (u : Unit {0}). ret (ok done, without_finalizer sdk client c) in
      let groups = keep (Group.delete sdk scope) c last in
      let network = delete_network sdk client c groups in
      let gateway = keep (Gateway.delete scope) c (λ _. network) in
      keep-Fine h (Balancer.delete scope) c (λ _. gateway) (λ _. Unit {0})
        (balancer_delete-Runs h calm scope)
        (λ _ t.
          keep-Fine h (Gateway.delete scope) c (λ _. network) (λ _. Unit {0})
            (gateway_delete-Runs h calm scope)
            (λ _ u.
              delete_network-Fine c groups
                (λ v.
                  keep-Fine h (Group.delete sdk scope) c last (λ _. Unit {0})
                    (group_delete-Runs h calm sdk plain scope) (λ _ _. tt) v)
                u)
            t)
