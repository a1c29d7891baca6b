-- ===== src/Lifecycle/Machines/Patches.antt =====
-- What the webhook lets a machine become.
use cluster_api_provider_sca.Prelude.{
  ◌≡◌, ◌≢◌, ◌↔◌, refl, ap, sym, ◌∙◌, String, Bool, true, false, inl, inr, Option, none, some, arith,
}
use cluster_api_provider_sca.Result.{
  Error, Result, ok, err, panicked, is_private_ip_not_found, is_bootstrap_data_not_ready,
}
use cluster_api_provider_sca.Sdk.{Sdk}
use cluster_api_provider_sca.Prog.{Handler, result}
use cluster_api_provider_sca.Api.Machine.{ScalewayMachine, ScalewayMachineSpec}
use cluster_api_provider_sca.Cloud.Instance.{Server}
use cluster_api_provider_sca.Scope.Machine.{MachineScope}
use cluster_api_provider_sca.Webhook.Field.{admitted}
use cluster_api_provider_sca.Webhook.Machine.{validate_create, validate_update}
use cluster_api_provider_sca.Webhook.Machine.Laws.{
  IsAllowed, IsLargeEnough, validate_iff, validate_update-admitted,
}
use cluster_api_provider_sca.Service.Instance.Addresses.{MachineIps}
use cluster_api_provider_sca.Service.Instance.Reconcile as Reconciler
use cluster_api_provider_sca.Controller.Machine.{
  Outcome, with_finalizer, waiting, instance_outcome, reconcile_normal,
}
use cluster_api_provider_sca.Controller.Machine.Laws.{normal_ends, machine_delete-finalizer}
use cluster_api_provider_sca.Lifecycle.Machines.{
  with_spec, with_deletion, reconciled, deleted, persisted, MachineStep, MachineReaches, reconciles,
  reports, persists, finalizes, deletes, updates, marks, drifts, start, next,
}

-- The specification is the same but for the identifier of the server.
abbrev HasMachineSpec : ScalewayMachine → Outcome → Type 0
HasMachineSpec m o = o.1.spec ≡ record m.spec { provider_id = o.1.spec.provider_id }

-- What is admitted when the specification changes in the identifier of the server alone.
renamed_iff :
    (m : ScalewayMachineSpec) (id : Option String)
    → IsAllowed (record m { provider_id = id }) m ↔ (m.provider_id ≢ none → id ≡ m.provider_id)
renamed_iff m id = (λ p. p.0, λ q. (q, refl, refl, refl, refl, λ _. refl, λ p r. absurd (cc), refl))

reported-HasMachineSpec :
    (m : ScalewayMachine) (b b' : Bool) (e : Error) → HasMachineSpec m (waiting b b' e, m)
reported-HasMachineSpec m true b' e = refl
reported-HasMachineSpec m false true e = refl
reported-HasMachineSpec m false false e = refl

stored-HasMachineSpec :
    (sdk : Sdk) (m : MachineScope) (r : Result (Server × MachineIps))
    → HasMachineSpec m.scaleway_machine (instance_outcome (Reconciler.store_server sdk m r))
stored-HasMachineSpec sdk m (ok p) = refl
stored-HasMachineSpec sdk m (err e) =
    reported-HasMachineSpec m.scaleway_machine (is_private_ip_not_found e)
      (is_bootstrap_data_not_ready e) e
stored-HasMachineSpec sdk m panicked = refl

finalized_spec : (m : ScalewayMachine) → (with_finalizer m).spec ≡ m.spec
finalized_spec m = ground arith

module _ {S : Type 0} (h : Handler S) (sdk : Sdk) where
  reconciled-HasMachineSpec :
      (m : MachineScope) (s : S)
      → HasMachineSpec m.scaleway_machine (result h (reconcile_normal sdk m) s)
  reconciled-HasMachineSpec m s =
      let m' = with_finalizer m.scaleway_machine in
      let found =
        normal_ends h sdk (HasMachineSpec m') m
          (stored-HasMachineSpec sdk (record m { scaleway_machine = m' })) refl (λ e. refl) refl
          s in
      let id = (reconciled h sdk m s).spec.provider_id in
      found
      ∙ ap (λ (spec : ScalewayMachineSpec). record spec { provider_id = id })
          (finalized_spec m.scaleway_machine)

  -- What a reconciliation of a machine that could be created writes is admitted exactly where the
  -- machine had no identifier of a server, or it is the one that the reconciliation found.
  pub machine_patch-admitted :
      (m : MachineScope) (s : S)
      → validate_create m.scaleway_machine ≡ admitted
      → (validate_update (reconciled h sdk m s) m.scaleway_machine ≡ admitted) ↔ (
          m.scaleway_machine.spec.provider_id ≢ none
          → (reconciled h sdk m s).spec.provider_id ≡ m.scaleway_machine.spec.provider_id)
  unfolding validate_create
  machine_patch-admitted m s given =
      let old = m.scaleway_machine in
      let new = reconciled h sdk m s in
      let same = reconciled-HasMachineSpec m s in
      let large = (validate_iff old).0 given in
      let still : IsLargeEnough new.spec.root_volume_size =
        rw (ap (λ (spec : ScalewayMachineSpec). spec.root_volume_size) same) large in
      let renamed = renamed_iff old.spec new.spec.provider_id in
      let whole = validate_update-admitted new old in
      (λ p. (whole.0 p).0.0, λ q. whole.1 (rw same (renamed.1 q), still))

IsAllowed-refl : (m : ScalewayMachineSpec) → IsAllowed m m
IsAllowed-refl m = (λ _. refl, refl, refl, refl, refl, λ _. refl, λ p q. absurd (cc), refl)

not_asked :
    (a b c : Option Bool)
    → (a ≡ none → b ≢ some true)
    → (b ≢ none → b ≡ c)
    → (b ≡ none → c ≢ some true)
    → a ≡ none
    → c ≢ some true
not_asked a none c first kept second absent asked = second refl asked
not_asked a (some b) c first kept second absent asked =
    first absent (kept (λ p. absurd (cc)) ∙ asked)

IsAllowed-trans : (a b c : ScalewayMachineSpec) → IsAllowed b a → IsAllowed c b → IsAllowed c a
IsAllowed-trans a b c p q =
    let (p0, p1, p2, p3, p4, p5, p6, p7) = p in
    let (q0, q1, q2, q3, q4, q5, q6, q7) = q in
    (
      λ there. q0 (λ gone. there (sym (p0 there) ∙ gone)) ∙ p0 there,
      q1 ∙ p1,
      q2 ∙ p2,
      p3 ∙ q3,
      p4 ∙ q4,
      λ there. p5 there ∙ q5 (λ gone. there (p5 there ∙ gone)),
      not_asked a.public_ip b.public_ip c.public_ip p6 q5 q6,
      p7 ∙ q7,
    )

-- An object with the specification of another one.
same_spec :
    (m d : ScalewayMachine)
    → d.spec ≡ m.spec
    → validate_create m ≡ admitted
    → (validate_create d ≡ admitted) × IsAllowed d.spec m.spec
unfolding validate_create
same_spec m d same given =
    let large = (validate_iff m).0 given in
    (
      (validate_iff d).1
          (rw (ap (λ (spec : ScalewayMachineSpec). spec.root_volume_size) same) large),
      rw same (IsAllowed-refl m.spec),
    )

checked_spec :
    (m d : ScalewayMachine)
    → validate_update d m ≡ admitted
    → (validate_create d ≡ admitted) × IsAllowed d.spec m.spec
unfolding validate_create
checked_spec m d checked =
    let (allowed, large) = (validate_update-admitted d m).0 checked in
    ((validate_iff d).1 large, allowed)

module _ {S : Type 0} (h : Handler S) (sdk : Sdk) where
  deleted_spec : (m : MachineScope) (s : S) → (deleted h m s).spec ≡ m.scaleway_machine.spec
  deleted_spec m s = elim (machine_delete-finalizer h m s) [
    | inl p ↦ ap (λ (o : Outcome). o.1.spec) p.1
    | inr p ↦ ap (λ (d : ScalewayMachine). d.spec) p.2
  ]

  machine_step_kept :
      {s : S} {m : ScalewayMachine} {t : S} {d : ScalewayMachine}
      → MachineStep h sdk s m t d
      → validate_create m ≡ admitted
      → (validate_create d ≡ admitted) × IsAllowed d.spec m.spec
  machine_step_kept (reconciles {s = s} m live checked) given =
      checked_spec m.scaleway_machine (reconciled h sdk m s) checked
  machine_step_kept (persists {s = s} m live checked) given =
      checked_spec m.scaleway_machine (persisted h sdk m s) checked
  machine_step_kept (reports {s = s} m live) given =
      let d = record (with_finalizer m.scaleway_machine) {
        status = (reconciled h sdk m s).status;
      } in
      same_spec m.scaleway_machine d (finalized_spec m.scaleway_machine) given
  machine_step_kept (finalizes {m = m} live) given =
      same_spec m (with_finalizer m) (finalized_spec m) given
  machine_step_kept (deletes {s = s} m dying) given =
      same_spec m.scaleway_machine (deleted h m s) (deleted_spec m s) given
  machine_step_kept (updates {m = m} {spec = spec} checked) given =
      checked_spec m (with_spec m spec) checked
  machine_step_kept (marks {m = m}) given = same_spec m (with_deletion m) refl given
  machine_step_kept (drifts {m = m}) given = same_spec m m refl given

  -- From a machine that could be created, whatever steps lead to an object, it could be created as
  -- it is, and compared with the first, the identifier of its server is the same if it was set, its
  -- choice of a public address is the same if it was made, no public address is asked for if no
  -- choice was made, and the other fields of its specification are the same.
  pub machine_reaches_kept :
      {s : S} {m : ScalewayMachine} {t : S} {d : ScalewayMachine}
      → MachineReaches h sdk s m t d
      → validate_create m ≡ admitted
      → (validate_create d ≡ admitted) × IsAllowed d.spec m.spec
  machine_reaches_kept {m = m} start given = (given, IsAllowed-refl m.spec)
  machine_reaches_kept {m = m} {d = e} (next {d = d} before step) given =
      let (valid, allowed) = machine_reaches_kept before given in
      let (valid', allowed') = machine_step_kept step valid in
      (valid', IsAllowed-trans m.spec d.spec e.spec allowed allowed')
