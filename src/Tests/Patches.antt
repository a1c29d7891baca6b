-- ===== src/Tests/Patches.antt =====
-- The lifecycle of a machine of which the server runs.
use cluster_api_provider_sca.Prelude.{◌≡◌, ◌≢◌, ◌↔◌, refl, true, false, none, some, [], ◌∷◌, ◌++◌}
use cluster_api_provider_sca.Api.Machine.{
  scaleway_root_volume_type, ScalewayMachine, machine_finalizer,
}
use cluster_api_provider_sca.Scope.Machine.{MachineScope, needs_public_ip, name, zone, tags}
use cluster_api_provider_sca.Webhook.Field.{admitted}
use cluster_api_provider_sca.Webhook.Machine.{validate, validate_create, validate_update}
use cluster_api_provider_sca.Webhook.Machine.Laws.{IsAllowed}
use cluster_api_provider_sca.Result.{ok, err, wrap}
use cluster_api_provider_sca.Prog.{Handler, result, final, changes}
use cluster_api_provider_sca.Controller.Cluster.{done}
use cluster_api_provider_sca.Controller.Machine.{
  patch_finalizer, with_finalizer, without_finalizer, reconcile_normal, reconcile_delete,
}
use cluster_api_provider_sca.Controller.Machine.Laws.{Marked}
use cluster_api_provider_sca.Controller.Machine.Done.{IsServed, machine_normal-ready}
use cluster_api_provider_sca.Cloud.{instance_api}
use cluster_api_provider_sca.Cloud.Instance.{InstanceIp, create_server}
use cluster_api_provider_sca.Client.Instance.{find_ip_by_tags, find_instance_by_name}
use cluster_api_provider_sca.Service.Instance.Create.{get_or_create_ip, get_or_create_server}
use cluster_api_provider_sca.Service.Instance.Reconcile.{reconcile}
use cluster_api_provider_sca.Controller.Machine.Leak.{reconcile_delete-leaves_address}
use cluster_api_provider_sca.Tests.Serving.{serving}
use cluster_api_provider_sca.Lifecycle.Phases.{Move}
use cluster_api_provider_sca.Lifecycle.Machines.{
  MachineStep, MachineReaches, with_deletion, reconciled, reconciles, marks, start, next,
}
use cluster_api_provider_sca.Lifecycle.Machines.Patches.{
  machine_patch-admitted, machine_reaches_kept,
}
use cluster_api_provider_sca.Lifecycle.Machines.Phases.{machine_phase, machine_step-Move}
use cluster_api_provider_sca.Tests.Fixtures.{unavailable, libraries, meta, machine}
use cluster_api_provider_sca.Tests.Instances.{cloud}

-- The finalizer is there, and the infrastructure of the cluster is ready.
abbrev working : MachineScope
working = record machine {
  owner = record machine.owner { infrastructure_ready = true };
  scaleway_machine = record machine.scaleway_machine {
    meta = record meta { finalizers = machine_finalizer ∷ [] };
  };
}

abbrev before : ScalewayMachine
before = working.scaleway_machine

abbrev later : ScalewayMachine
later = reconciled cloud libraries working tt

before-admitted : validate_create before ≡ admitted
unfolding validate_create validate
before-admitted = refl

machine_patch-admitted_example :
    (validate_update later before ≡ admitted)
    ↔ (before.spec.provider_id ≢ none → later.spec.provider_id ≡ before.spec.provider_id)
machine_patch-admitted_example = machine_patch-admitted cloud libraries working tt before-admitted

patch_stored : validate_update later before ≡ admitted
patch_stored =
    (machine_patch-admitted cloud libraries working tt before-admitted).1 (λ set. absurd (set refl))

abbrev first_step : MachineStep cloud libraries tt before tt later
first_step = reconciles {s = tt} working refl patch_stored

machine_step-Move_example : Move (machine_phase before) (machine_phase later)
machine_step-Move_example =
    machine_step-Move cloud libraries {s = tt} {m = before} {t = tt} {d = later} first_step

abbrev marked : MachineReaches cloud libraries tt before tt (with_deletion later)
marked =
    next {t = tt} {u = tt} {d = later} {e = with_deletion later}
      (next {t = tt} {u = tt} {d = before} {e = later} start first_step)
      (marks {s = tt} {m = later})

machine_reaches_kept_example :
    (validate_create (with_deletion later) ≡ admitted)
    × IsAllowed (with_deletion later).spec before.spec
machine_reaches_kept_example =
    machine_reaches_kept cloud libraries {s = tt} {m = before} {t = tt} {d = with_deletion later}
      marked before-admitted

machine_normal-ready_example :
    let o = result cloud (reconcile_normal libraries working) tt in
    let patch = patch_finalizer before in
    let m = record working { scaleway_machine = with_finalizer before } in
    ((o.0 ≡ ok done)
      ↔ ((result cloud patch tt ≡ ok tt) × IsServed cloud libraries m (final cloud patch tt)))
    × Marked (with_finalizer before) o
machine_normal-ready_example = machine_normal-ready cloud libraries working tt

-- A machine with a public address, of which the server cannot be created.
abbrev exposed : MachineScope
exposed = record working {
  scaleway_machine = record before { spec = record before.spec { public_ip = some true } };
}

abbrev refusing : Handler (Unit {0})
refusing (instance_api (create_server _)) s = (err unavailable, s)
refusing q s = serving q s

abbrev exposed_address : InstanceIp
exposed_address = record { id = "ip"; address = "1.2.3.4"; dynamic = false }

reconcile_delete-leaves_address_example :
    (result refusing (reconcile libraries exposed) tt
      ≡ (err (wrap "failed to create server" unavailable), exposed.scaleway_machine))
    × (changes refusing (reconcile libraries exposed) tt
        ≡ changes refusing (get_or_create_ip exposed) tt
          ++ changes refusing (get_or_create_server exposed libraries (some exposed_address)) tt)
    × (result refusing (reconcile_delete exposed) tt
        ≡ (ok done, without_finalizer exposed.scaleway_machine))
    × (changes refusing (reconcile_delete exposed) tt ≡ [])
unfolding get_or_create_ip get_or_create_server find_ip_by_tags find_instance_by_name
    needs_public_ip name zone tags scaleway_root_volume_type
reconcile_delete-leaves_address_example =
    reconcile_delete-leaves_address refusing libraries exposed tt {ip = exposed_address}
      {e = wrap "failed to create server" unavailable} {servers = []} refl refl refl refl
