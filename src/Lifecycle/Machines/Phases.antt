-- ===== src/Lifecycle/Machines/Phases.antt =====
-- The phases that a machine goes through.
use cluster_api_provider_sca.Prelude.{◌≡◌, ◌⊎◌, refl, ap, ◌∙◌, true, false, inl, inr, arith}
use cluster_api_provider_sca.Sdk.{Sdk}
use cluster_api_provider_sca.Prog.{Handler}
use cluster_api_provider_sca.Api.Cluster.{ObjectMeta}
use cluster_api_provider_sca.Api.Machine.{ScalewayMachine, machine_finalizer}
use cluster_api_provider_sca.Scope.Machine.{MachineScope}
use cluster_api_provider_sca.Controller.Finalizers.{has_finalizer}
use cluster_api_provider_sca.Controller.Machine.{Outcome, with_finalizer, without_finalizer}
use cluster_api_provider_sca.Controller.Machine.Laws.{normal-Marked, machine_delete-finalizer}
use cluster_api_provider_sca.Lifecycle.Phases.{
  Phase, Move, rest, phase_of, contains_added, contains_removed, marked-Move, live-Move, dying-Move,
}
use cluster_api_provider_sca.Lifecycle.Machines.{
  reconciled, deleted, persisted, MachineStep, reconciles, reports, persists, finalizes, deletes,
  updates, marks, drifts,
}

-- The phase of a machine: the same as that of a cluster.
abbrev pub machine_phase : ScalewayMachine → Phase
machine_phase m = phase_of m.meta.deleting (has_finalizer machine_finalizer m.meta) m.status.ready

module _ (m : ScalewayMachine) where
  machine_finalizer_added : has_finalizer machine_finalizer (with_finalizer m).meta ≡ true
  machine_finalizer_added =
      let added = contains_added machine_finalizer m.meta.finalizers in ground arith

  machine_finalizer_removed : has_finalizer machine_finalizer (without_finalizer m).meta ≡ false
  machine_finalizer_removed = contains_removed machine_finalizer m.meta.finalizers

  machine_finalizer_kept :
      ((with_finalizer m).meta.deleting ≡ m.meta.deleting)
      × ((with_finalizer m).status.ready ≡ m.status.ready)
  machine_finalizer_kept = ground arith

  -- An object with the metadata of the one with its finalizer, ready or as ready as before.
  finalized-Move :
      (d : ScalewayMachine)
      → m.meta.deleting ≡ false
      → d.meta ≡ (with_finalizer m).meta
      → (d.status.ready ≡ true) ⊎ (d.status.ready ≡ m.status.ready)
      → Move (machine_phase m) (machine_phase d)
  finalized-Move d live meta how =
      live-Move m.meta.deleting (has_finalizer machine_finalizer m.meta) m.status.ready
        d.meta.deleting (has_finalizer machine_finalizer d.meta) d.status.ready live
        (ap (λ (o : ObjectMeta). o.deleting) meta ∙ (machine_finalizer_kept.0 ∙ live))
        (ap (has_finalizer machine_finalizer) meta ∙ machine_finalizer_added) how

module _ {S : Type 0} (h : Handler S) (sdk : Sdk) where
  marked_ready :
      (m : MachineScope) (s : S)
      → ((reconciled h sdk m s).status.ready ≡ true)
        ⊎ ((reconciled h sdk m s).status.ready ≡ m.scaleway_machine.status.ready)
  marked_ready m s = elim (normal-Marked h sdk m s).1 [
    | inl p ↦ inl p.1
    | inr p ↦ inr (p.1 ∙ (machine_finalizer_kept m.scaleway_machine).1)
  ]

  deleted-Move :
      (m : MachineScope) (s : S)
      → m.scaleway_machine.meta.deleting ≡ true
      → Move (machine_phase m.scaleway_machine) (machine_phase (deleted h m s))
  deleted-Move m s dying =
      let old = m.scaleway_machine in
      elim (machine_delete-finalizer h m s) [
        | inl p ↦
            let e = ap (λ (o : Outcome). o.1) p.1 in
            rw e (
              dying-Move old.meta.deleting (has_finalizer machine_finalizer old.meta)
                (has_finalizer machine_finalizer (without_finalizer old).meta) old.status.ready
                dying (machine_finalizer_removed old))
        | inr p ↦ let e = p.2 in rw e rest
      ]

  -- Every step of a machine is a move of the phases: the finalizer comes with a reconciliation,
  -- readiness after it or with it, and it goes only with a deletion.
  pub machine_step-Move :
      {s : S} {m : ScalewayMachine} {t : S} {d : ScalewayMachine}
      → MachineStep h sdk s m t d
      → Move (machine_phase m) (machine_phase d)
  machine_step-Move (reconciles {s = s} m live checked) =
      finalized-Move m.scaleway_machine (reconciled h sdk m s) live (normal-Marked h sdk m s).0
        (marked_ready m s)
  machine_step-Move (persists {s = s} m live checked) =
      finalized-Move m.scaleway_machine (persisted h sdk m s) live (normal-Marked h sdk m s).0
        (inr refl)
  machine_step-Move (reports {s = s} m live) =
      finalized-Move m.scaleway_machine
        (record (with_finalizer m.scaleway_machine) { status = (reconciled h sdk m s).status }) live
        refl (marked_ready m s)
  machine_step-Move (finalizes {m = m} live) =
      finalized-Move m (with_finalizer m) live refl (inr (machine_finalizer_kept m).1)
  machine_step-Move (deletes {s = s} m dying) = deleted-Move m s dying
  machine_step-Move (updates checked) = rest
  machine_step-Move (marks {m = m}) =
      marked-Move m.meta.deleting (has_finalizer machine_finalizer m.meta) m.status.ready
  machine_step-Move drifts = rest
