-- ===== src/Controller/Machine.antt =====
-- internal/controller/scalewaymachine_controller.go
pub mod Laws
pub mod Safe
pub mod Leak
pub mod Done
use cluster_api_provider_sca.Prelude.{String, Bool, true, false, Option, none, some, if◌then◌else◌}
use cluster_api_provider_sca.Result.{
  Error, Result, ok, err, panicked, is_not_found, is_private_ip_not_found,
  is_bootstrap_data_not_ready,
}
use cluster_api_provider_sca.Sdk.{Sdk}
use cluster_api_provider_sca.Cloud.{kube_api}
use cluster_api_provider_sca.Cloud.Kube.{
  get_scaleway_machine, get_scaleway_cluster, get_owner_machine, get_cluster_from_metadata,
}
use cluster_api_provider_sca.Prog.{Prog, Io, ret, bind, ask, pure, lift, ◌>>=◌}
use cluster_api_provider_sca.Api.Machine.{ScalewayMachine, Machine, OwnerCluster, machine_finalizer}
use cluster_api_provider_sca.Scope.Machine.{MachineScope, new_machine, patch_object}
use cluster_api_provider_sca.Service.Instance.Reconcile as Reconciler
use cluster_api_provider_sca.Service.Instance.Delete as Deleter
use cluster_api_provider_sca.Controller.Secret.{client_from_secret, new}
use cluster_api_provider_sca.Controller.Finalizers.{has_finalizer, add_finalizer, remove_finalizer}
use cluster_api_provider_sca.Controller.Cluster.{Requeue, done, after, close_result}

-- What a reconciler returns, with the object as it leaves it.
abbrev pub Outcome : Type 0
Outcome = Result Requeue × ScalewayMachine

abbrev pub with_finalizer : ScalewayMachine → ScalewayMachine
with_finalizer m =
    if has_finalizer machine_finalizer m.meta
    then m
    else record m { meta = add_finalizer machine_finalizer m.meta }

abbrev pub without_finalizer : ScalewayMachine → ScalewayMachine
without_finalizer m = record m { meta = remove_finalizer machine_finalizer m.meta }

abbrev pub with_ready : ScalewayMachine → ScalewayMachine
with_ready m = record m { status = record m.status { ready = true } }

-- Two errors mean that something is awaited.
abbrev pub waiting : Bool → Bool → Error → Result Requeue
waiting true _ e = ok (after 2)
waiting false true e = ok (after 2)
waiting false false e = err e

abbrev pub instance_outcome : Result (Unit {0}) × ScalewayMachine → Outcome
instance_outcome (ok u, m) = (ok done, with_ready m)
instance_outcome (err e, m) =
    (waiting (is_private_ip_not_found e) (is_bootstrap_data_not_ready e) e, m)
instance_outcome (panicked, m) = (panicked, m)

unfoldable pub patch_finalizer : ScalewayMachine → Io (Unit {0})
unfolding patch_object
patch_finalizer m =
    if has_finalizer machine_finalizer m.meta then pure tt else patch_object (with_finalizer m)

abbrev scope_with : MachineScope → ScalewayMachine → MachineScope
scope_with s m = record s { scaleway_machine = m }

-- The rest of `reconcileNormal`, after the finalizer.
unfoldable pub reconcile_instance : Sdk → MachineScope → Prog Outcome
reconcile_instance sdk s =
    if s.owner.infrastructure_ready
    then bind (Reconciler.reconcile sdk s) (λ p. ret (instance_outcome p))
    else ret (ok (after 2), s.scaleway_machine)

-- `reconcileNormal`
unfoldable pub reconcile_normal : Sdk → MachineScope → Prog Outcome
unfolding patch_finalizer
reconcile_normal sdk s =
    let m = with_finalizer s.scaleway_machine in
    bind (patch_finalizer s.scaleway_machine) (λ r. elim r [
      | ok u ↦ reconcile_instance sdk (scope_with s m)
      | err e ↦ ret (err e, m)
      | panicked ↦ ret (panicked, m)
    ])

abbrev pub delete_outcome : ScalewayMachine → Result (Unit {0}) → Outcome
delete_outcome m (ok u) = (ok done, without_finalizer m)
delete_outcome m (err e) = (err e, m)
delete_outcome m panicked = (panicked, m)

-- `reconcileDelete`
unfoldable pub reconcile_delete : MachineScope → Prog Outcome
reconcile_delete s = bind (Deleter.delete s) (λ r. ret (delete_outcome s.scaleway_machine r))

-- The deferred `Close`.
unfoldable pub close : Outcome → Io Requeue
unfolding patch_object
close (r, m) = bind (patch_object m) (λ p. ret (close_result r p))

-- `cluster.Spec.InfrastructureRef.Name`: a nil reference is followed without a check.
abbrev pub infrastructure_name : OwnerCluster → Result String
infrastructure_name owner = elim owner.infrastructure_ref [ some name ↦ ok name | none ↦ panicked ]

module _ (sdk : Sdk) where
  reconcile_with : MachineScope → Prog Outcome
  reconcile_with s =
      if s.scaleway_machine.meta.deleting then reconcile_delete s else reconcile_normal sdk s

  -- From the ScalewayCluster on.
  reconcile_scoped : ScalewayMachine → Machine → OwnerCluster → Io Requeue
  unfolding reconcile_with new_machine
  reconcile_scoped m machine owner = do
    infrastructure ← lift (infrastructure_name owner)
    cluster ← ask (kube_api (get_scaleway_cluster owner.meta.namespace infrastructure))
    project ← client_from_secret cluster
    client ← ret (new project)
    scope ← new_machine client cluster owner m machine
    bind (reconcile_with scope) close

  -- An error of the search for the cluster is no error of the reconciler.
  abbrev after_cluster : ScalewayMachine → Machine → Result OwnerCluster → Io Requeue
  after_cluster m machine (ok owner) =
      if sdk.is_paused owner m.meta then pure done else reconcile_scoped m machine owner
  after_cluster m machine (err e) = pure done
  after_cluster m machine panicked = ret panicked

  reconcile_owned : ScalewayMachine → Option Machine → Io Requeue
  unfolding reconcile_scoped
  reconcile_owned m none = pure done
  reconcile_owned m (some machine) =
      bind (ask (kube_api (get_cluster_from_metadata machine.meta))) (after_cluster m machine)

  unfoldable pub reconcile_object : ScalewayMachine → Io Requeue
  unfolding reconcile_owned
  reconcile_object m = do owner ← ask (kube_api (get_owner_machine m.meta)); reconcile_owned m owner

  abbrev read_error : Bool → Error → Io Requeue
  read_error true e = pure done
  read_error false e = ret (err e)

  abbrev after_read : Result ScalewayMachine → Io Requeue
  after_read (ok m) = reconcile_object m
  after_read (err e) = read_error (is_not_found e) e
  after_read panicked = ret panicked

  -- `Reconcile`
  unfoldable pub reconcile : String → String → Io Requeue
  reconcile namespace name = bind (ask (kube_api (get_scaleway_machine namespace name))) after_read
