-- ===== src/Lifecycle/Machines.antt =====
-- A ScalewayMachine in the API server, and what happens to it: reconciliations and deletions by
-- internal/controller/scalewaymachine_controller.go, and the updates that
-- api/v1beta1/scalewaymachine_webhook.go admits. A patch of the reconciler goes through the webhook
-- like an update of a user.
pub mod Patches
pub mod Phases
use cluster_api_provider_sca.Prelude.{
  ◌≡◌, ◌≢◌, ◌⊎◌, ◌↔◌, refl, ap, sym, ◌∙◌, String, Bool, true, false, Bool-cases, inl, inr, Option,
  none, some, if◌then◌else◌, arith,
}
use cluster_api_provider_sca.Result.{
  Error, Result, ok, err, panicked, is_private_ip_not_found, is_bootstrap_data_not_ready,
}
use cluster_api_provider_sca.Sdk.{Sdk}
use cluster_api_provider_sca.Prog.{Handler, result, final}
use cluster_api_provider_sca.Api.Cluster.{ObjectMeta}
use cluster_api_provider_sca.Api.Machine.{
  ScalewayMachine, ScalewayMachineSpec, ScalewayMachineStatus, machine_finalizer,
}
use cluster_api_provider_sca.Cloud.Instance.{Server}
use cluster_api_provider_sca.Scope.Machine.{MachineScope}
use cluster_api_provider_sca.Webhook.Field.{Admission, admitted}
use cluster_api_provider_sca.Webhook.Machine.{validate_create, validate_update}
use cluster_api_provider_sca.Webhook.Machine.Laws.{
  IsAllowed, IsLargeEnough, validate_iff, validate_update-admitted,
}
use cluster_api_provider_sca.Service.Instance.Addresses.{MachineIps}
use cluster_api_provider_sca.Service.Instance.Reconcile as Reconciler
use cluster_api_provider_sca.Controller.Finalizers.{has_finalizer}
use cluster_api_provider_sca.Controller.Cluster.{Requeue, done}
use cluster_api_provider_sca.Controller.Machine.{
  Outcome, with_finalizer, without_finalizer, waiting, instance_outcome, reconcile_normal,
  reconcile_delete,
}
use cluster_api_provider_sca.Controller.Machine.Laws.{
  normal_ends, normal-Marked, machine_delete-finalizer,
}
use cluster_api_provider_sca.Lifecycle.Phases.{
  Phase, Move, rest, phase_of, contains_added, contains_removed, marked-Move, live-Move, dying-Move,
}

-- The object with a specification, a status or a deletion timestamp of its own.
abbrev pub with_spec : ScalewayMachine → ScalewayMachineSpec → ScalewayMachine
with_spec m spec = record m { spec = spec }

abbrev pub with_deletion : ScalewayMachine → ScalewayMachine
with_deletion m = record m { meta = record m.meta { deleting = true } }

-- The object that a reconciliation leaves, and the one that a deletion leaves.
abbrev pub reconciled : {S : Type 0} → Handler S → Sdk → MachineScope → S → ScalewayMachine
reconciled h sdk m s = (result h (reconcile_normal sdk m) s).1

-- The object of which all but the status of a reconciliation was stored.
abbrev pub persisted : {S : Type 0} → Handler S → Sdk → MachineScope → S → ScalewayMachine
persisted h sdk m s = record (reconciled h sdk m s) { status = m.scaleway_machine.status }

abbrev pub deleted : {S : Type 0} → Handler S → MachineScope → S → ScalewayMachine
deleted h m s = (result h (reconcile_delete m) s).1

module _ {S : Type 0} (h : Handler S) (sdk : Sdk) where
  -- The state of the outside and the object, before and after. A run is stored whole, or its first
  -- patch alone (`finalizes`), or after that its status alone (`reports`), which is a subresource
  -- that no webhook sees, or all but its status (`persists`); `drifts` is any change outside, that of
  -- a run that was not stored included. Each step has the scope of its own, with the cluster and the
  -- Machine as they are then.
  pub data MachineStep : S → ScalewayMachine → S → ScalewayMachine → Type 0 where
    reconciles :
        {s : S} (m : MachineScope)
        → m.scaleway_machine.meta.deleting ≡ false
        → validate_update (reconciled h sdk m s) m.scaleway_machine ≡ admitted
        → MachineStep s m.scaleway_machine
            (final h (reconcile_normal sdk m) s)
            (reconciled h sdk m s)
    reports :
        {s : S} (m : MachineScope)
        → m.scaleway_machine.meta.deleting ≡ false
        → MachineStep s m.scaleway_machine
            (final h (reconcile_normal sdk m) s)
            (record (with_finalizer m.scaleway_machine) { status = (reconciled h sdk m s).status })
    persists :
        {s : S} (m : MachineScope)
        → m.scaleway_machine.meta.deleting ≡ false
        → validate_update (persisted h sdk m s) m.scaleway_machine ≡ admitted
        → MachineStep s m.scaleway_machine
            (final h (reconcile_normal sdk m) s)
            (persisted h sdk m s)
    finalizes :
        {s t : S} {m : ScalewayMachine}
        → m.meta.deleting ≡ false
        → MachineStep s m t (with_finalizer m)
    deletes :
        {s : S} (m : MachineScope)
        → m.scaleway_machine.meta.deleting ≡ true
        → MachineStep s m.scaleway_machine (final h (reconcile_delete m) s) (deleted h m s)
    updates :
        {s : S} {m : ScalewayMachine} {spec : ScalewayMachineSpec}
        → validate_update (with_spec m spec) m ≡ admitted
        → MachineStep s m s (with_spec m spec)
    marks : {s : S} {m : ScalewayMachine} → MachineStep s m s (with_deletion m)
    drifts : {s t : S} {m : ScalewayMachine} → MachineStep s m t m

  -- Any number of steps.
  pub data MachineReaches (s : S) (m : ScalewayMachine) : S → ScalewayMachine → Type 0 where
    start : MachineReaches s m s m
    next :
        {t u : S} {d e : ScalewayMachine}
        → MachineReaches s m t d
        → MachineStep t d u e
        → MachineReaches s m u e
