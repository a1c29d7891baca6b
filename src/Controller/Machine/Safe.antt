-- ===== src/Controller/Machine/Safe.antt =====
-- Panics of internal/controller/scalewaymachine_controller.go.
use cluster_api_provider_sca.Prelude.{
  ◌≡◌, ◌≢◌, Bool-cases, inl, inr, String, Option, none, some, arith,
}
use cluster_api_provider_sca.Result.{Error, Result, ok, err, panicked, is_not_found}
use cluster_api_provider_sca.Sdk.{Sdk}
use cluster_api_provider_sca.Sdk.Plain.{IsPlain}
use cluster_api_provider_sca.Cloud.{kube_api}
use cluster_api_provider_sca.Cloud.Kube.{
  get_scaleway_cluster, get_scaleway_machine, get_owner_machine, get_cluster_from_metadata,
}
use cluster_api_provider_sca.Prog.{Prog, ret, bind, ask, lift, ◌>>=◌, Handler, result}
use cluster_api_provider_sca.Prog.Laws.{result-bind}
use cluster_api_provider_sca.Prog.Runs.{
  AnyError, Any, Meets, Runs, either, Runs-bind, Meets-calm, IsCalm,
}
use cluster_api_provider_sca.Client.{Client}
use cluster_api_provider_sca.Api.Cluster.{ScalewayCluster, ObjectMeta}
use cluster_api_provider_sca.Api.Machine.{ScalewayMachine, Machine, OwnerCluster}
use cluster_api_provider_sca.Scope.Cluster.{new_cluster}
use cluster_api_provider_sca.Scope.Machine.{MachineScope, new_machine, patch_object}
use cluster_api_provider_sca.Service.Vpc.Safe.{IsStored}
use cluster_api_provider_sca.Service.Instance.Reconcile as Reconciler
use cluster_api_provider_sca.Service.Instance.Reconcile.Safe.{machine-Runs}
use cluster_api_provider_sca.Service.Instance.Delete as Deleter
use cluster_api_provider_sca.Service.Instance.Delete.Safe.{machine_delete-Runs}
use cluster_api_provider_sca.Controller.Secret.{client_from_secret, new}
use cluster_api_provider_sca.Controller.Secret.Safe.{HaveProjects, client-Runs, new-plain}
use cluster_api_provider_sca.Controller.Cluster.{after}
use cluster_api_provider_sca.Controller.Machine.{
  infrastructure_name, Outcome, instance_outcome, patch_finalizer, with_finalizer, scope_with,
  reconcile_instance, reconcile_normal, delete_outcome, reconcile_delete, close, reconcile_with,
  reconcile_scoped, after_cluster, reconcile_owned, reconcile_object, after_read, reconcile,
}

waiting-Meets :
    (e : Error) (m : ScalewayMachine) → Meets AnyError Any (instance_outcome (err e, m)).0
waiting-Meets e m = grind (arith)

outcome-Meets :
    (p : Result (Unit {0}) × ScalewayMachine)
    → Meets AnyError Any p.0
    → Meets AnyError Any (instance_outcome p).0
outcome-Meets (ok u, m) fine = tt
outcome-Meets (err e, m) fine = waiting-Meets e m
outcome-Meets (panicked, m) fine = fine

delete_outcome-Meets :
    (m : ScalewayMachine) (r : Result (Unit {0}))
    → Meets AnyError Any r
    → Meets AnyError Any (delete_outcome m r).0
delete_outcome-Meets m (ok u) fine = tt
delete_outcome-Meets m (err e) fine = tt
delete_outcome-Meets m panicked fine = fine

module _ {S : Type 0} (h : Handler S) (calm : IsCalm h) (sdk : Sdk) (plain : IsPlain sdk) where
  instance-Meets :
      (m : MachineScope)
      → IsStored m.cluster
      → (s : S) → Meets AnyError Any (result h (reconcile_instance sdk m) s).0
  unfolding reconcile_instance
  instance-Meets m stored s =
      let work = bind (Reconciler.reconcile sdk m) (λ p. ret (instance_outcome p)) in
      let wait = ret (ok (after 2), m.scaleway_machine) in
      either (λ (p : Prog Outcome). Meets AnyError Any (result h p s).0)
        m.owner.infrastructure_ready work wait
        (rw (result-bind h (Reconciler.reconcile sdk m) (λ p. ret (instance_outcome p)) s) (
          outcome-Meets (result h (Reconciler.reconcile sdk m) s)
            (machine-Runs h calm sdk plain m stored s)))
        tt

  pub normal-Meets :
      (m : MachineScope)
      → IsStored m.cluster
      → (s : S) → Meets AnyError Any (result h (reconcile_normal sdk m) s).0
  unfolding reconcile_normal patch_finalizer patch_object
  normal-Meets m stored s =
      let rest = instance-Meets (scope_with m (with_finalizer m.scaleway_machine)) stored in
      grind (arith, calm, rest)

  pub deletion-Meets :
      (m : MachineScope)
      → IsStored m.cluster
      → (s : S) → Meets AnyError Any (result h (reconcile_delete m) s).0
  unfolding reconcile_delete
  deletion-Meets m stored s =
      rw (result-bind h (Deleter.delete m) (λ r. ret (delete_outcome m.scaleway_machine r)) s) (
        delete_outcome-Meets m.scaleway_machine (result h (Deleter.delete m) s)
          (machine_delete-Runs h calm m stored s))

-- The owner refers to a ScalewayCluster.
abbrev pub IsReferring : OwnerCluster → Type 0
IsReferring owner = owner.infrastructure_ref ≢ none

-- An outside that makes no call panic, serves owners that refer to a ScalewayCluster and clusters
-- whose Private Network is stored, and makes clients with a default project.
pub record IsServed {S : Type 0} (h : Handler S) : Type 0 where
  pub calm : IsCalm h
  pub stored :
      (namespace name : String) (s : S)
      → Meets AnyError IsStored (h (kube_api (get_scaleway_cluster namespace name)) s).0
  pub referring :
      (child : ObjectMeta) (s : S)
      → Meets AnyError IsReferring (h (kube_api (get_cluster_from_metadata child)) s).0
  pub projects : HaveProjects h

module _ {S : Type 0} (h : Handler S) (served : IsServed h) (sdk : Sdk) (plain : IsPlain sdk) where
  close-Runs : (o : Outcome) → Meets AnyError Any o.0 → Runs h AnyError Any (close o)
  unfolding close
  close-Runs (ok q, c) fine s = let calm = served.calm in grind (arith, calm)
  close-Runs (err e, c) fine s = let calm = served.calm in grind (arith, calm)
  close-Runs (panicked, c) fine s = absurd fine

  with-Meets :
      (m : MachineScope)
      → IsStored m.cluster
      → (s : S) → Meets AnyError Any (result h (reconcile_with sdk m) s).0
  unfolding reconcile_with
  with-Meets m stored s =
      either (λ (p : Prog Outcome). Meets AnyError Any (result h p s).0)
        m.scaleway_machine.meta.deleting (reconcile_delete m) (reconcile_normal sdk m)
        (deletion-Meets h served.calm sdk plain m stored s)
        (normal-Meets h served.calm sdk plain m stored s)

  closed-Runs :
      (m : MachineScope)
      → IsStored m.cluster
      → Runs h AnyError Any (bind (reconcile_with sdk m) close)
  closed-Runs m stored s =
      rw (result-bind h (reconcile_with sdk m) close s)
        (close-Runs (result h (reconcile_with sdk m) s) (with-Meets m stored s) _)

  scope-Runs :
      (client : Client) (c : ScalewayCluster) (owner : OwnerCluster) (m : ScalewayMachine)
      (machine : Machine)
      → Runs h AnyError (λ scope. scope.cluster ≡ c) (new_machine client c owner m machine)
  unfolding new_machine new_cluster
  scope-Runs client c owner m machine s = let calm = served.calm in grind (arith, calm)

  infrastructure_name-plain :
      (owner : OwnerCluster) → IsReferring owner → Meets AnyError Any (infrastructure_name owner)
  infrastructure_name-plain owner refers = ground arith

  scoped-Runs :
      (m : ScalewayMachine) (machine : Machine) (owner : OwnerCluster)
      → IsReferring owner
      → Runs h AnyError Any (reconcile_scoped sdk m machine owner)
  unfolding reconcile_scoped
  scoped-Runs m machine owner refers =
      let read = λ (name : String). kube_api (get_scaleway_cluster owner.meta.namespace name) in
      let last = λ (scope : MachineScope). bind (reconcile_with sdk scope) close in
      let with_client =
        λ (c : ScalewayCluster) (client : Client). new_machine client c owner m machine >>= last in
      let of_secret =
        λ (c : ScalewayCluster) (project : Option String). lift (new project) >>= with_client c in
      let from = λ (name : String). ask (read name) >>= λ c. client_from_secret c >>= of_secret c in
      Runs-bind h AnyError Any Any (lift (infrastructure_name owner)) from
        (λ s. infrastructure_name-plain owner refers)
        (λ name _.
          Runs-bind h AnyError IsStored Any (ask (read name))
            (λ c. client_from_secret c >>= of_secret c) (λ s. served.stored _ _ s)
            (λ c stored.
              Runs-bind h AnyError (λ project. project ≢ none) Any (client_from_secret c)
                (of_secret c) (client-Runs h served.calm served.projects c)
                (λ project given.
                  Runs-bind h AnyError Any Any (lift (new project)) (with_client c)
                    (λ _. new-plain project given)
                    (λ client _.
                      Runs-bind h AnyError (λ scope. scope.cluster ≡ c) Any
                        (new_machine client c owner m machine) last
                        (scope-Runs client c owner m machine)
                        (λ scope same. closed-Runs scope (rw same stored))))))

  cluster-Runs :
      (m : ScalewayMachine) (machine : Machine) (r : Result OwnerCluster)
      → Meets AnyError IsReferring r
      → Runs h AnyError Any (after_cluster sdk m machine r)
  cluster-Runs m machine (ok owner) fine s = elim (Bool-cases (sdk.is_paused owner m.meta)) [
    | inl paused ↦ rw paused tt
    | inr running ↦ rw running (scoped-Runs m machine owner fine s)
  ]
  cluster-Runs m machine (err e) fine s = tt
  cluster-Runs m machine panicked fine s = fine

  owned-Runs :
      (m : ScalewayMachine) (machine : Option Machine)
      → Runs h AnyError Any (reconcile_owned sdk m machine)
  unfolding reconcile_owned
  owned-Runs m none s = tt
  owned-Runs m (some machine) s = cluster-Runs m machine _ (served.referring machine.meta s) _

  object-Runs : (m : ScalewayMachine) → Runs h AnyError Any (reconcile_object sdk m)
  unfolding reconcile_object
  object-Runs m =
      Runs-bind h AnyError Any Any (ask (kube_api (get_owner_machine m.meta)))
        (reconcile_owned sdk m) (λ s. served.calm _ s) (λ machine _. owned-Runs m machine)

  read-Runs :
      (r : Result ScalewayMachine) → Meets AnyError Any r → Runs h AnyError Any (after_read sdk r)
  read-Runs (ok m) fine s = object-Runs m s
  read-Runs (err e) fine s = elim (Bool-cases (is_not_found e)) [
    | inl missing ↦ rw missing tt
    | inr failed ↦ rw failed tt
  ]
  read-Runs panicked fine s = fine

  -- `Reconcile` of a machine never panics, whatever the outside answers, as long as no call and no
  -- function of a library panics, the owner clusters that it reads refer to a ScalewayCluster, the
  -- ScalewayClusters have a status with a place for their Private Network, and every client has a
  -- default project.
  pub machine_reconcile_calm :
      (namespace name : String) (s : S) → result h (reconcile sdk namespace name) s ≢ panicked
  unfolding reconcile
  machine_reconcile_calm namespace name s =
      Meets-calm _ (read-Runs _ (served.calm (kube_api (get_scaleway_machine namespace name)) s) _)
