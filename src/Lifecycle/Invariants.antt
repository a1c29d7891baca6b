-- ===== src/Lifecycle/Invariants.antt =====
-- What every object of a lifecycle has.
use cluster_api_provider_sca.Prelude.{◌≡◌, refl, ap, sym, ◌∙◌, inl, inr}
use cluster_api_provider_sca.Result.{ok}
use cluster_api_provider_sca.Sdk.{Sdk}
use cluster_api_provider_sca.Prog.{Handler, result}
use cluster_api_provider_sca.Client.{Client}
use cluster_api_provider_sca.Api.Cluster.{ScalewayCluster, ScalewayClusterSpec}
use cluster_api_provider_sca.Webhook.Field.{admitted}
use cluster_api_provider_sca.Webhook.Immutable.{network_or_empty, balancer_or_empty}
use cluster_api_provider_sca.Webhook.Immutable.Laws.{IsUnchanged}
use cluster_api_provider_sca.Webhook.Cluster.{validate_create, validate_update}
use cluster_api_provider_sca.Webhook.Cluster.Laws.{validate_create-admitted}
use cluster_api_provider_sca.Webhook.Cluster.Update.{update-admitted}
use cluster_api_provider_sca.Controller.Cluster.{reconcile_normal, reconcile_delete, with_finalizer}
use cluster_api_provider_sca.Controller.Cluster.Laws.{reconcile_delete-finalizer}
use cluster_api_provider_sca.Controller.Cluster.Frame.{
  HasSpec, with_finalizer-HasSpec, reconcile_normal-HasSpec,
}
use cluster_api_provider_sca.Lifecycle.{
  with_deletion, reported, persisted, Step, Reaches, reconciles, reports, persists, finalizes,
  deletes, updates, marks, drifts, start, next,
}

abbrev IsAdmitted : Sdk → ScalewayCluster → Type 0
IsAdmitted sdk c = validate_create sdk c ≡ ok admitted

-- A specification that differs in its endpoint alone is unchanged to the webhook.
HasSpec-IsUnchanged : (c c' : ScalewayCluster) → HasSpec c c' → IsUnchanged c' c
HasSpec-IsUnchanged c c' same = (
  ap (λ (spec : ScalewayClusterSpec). spec.region) same,
  ap (λ (spec : ScalewayClusterSpec). spec.scaleway_secret_name) same,
  ap (λ (spec : ScalewayClusterSpec). (network_or_empty spec.network).private_network) same,
  ap (λ (spec : ScalewayClusterSpec). (network_or_empty spec.network).public_gateway) same,
  sym (
      ap (λ (spec : ScalewayClusterSpec). (balancer_or_empty spec.control_plane_load_balancer).zone)
        same),
  sym (
      ap (λ (spec : ScalewayClusterSpec). (balancer_or_empty spec.control_plane_load_balancer).ip)
        same),
)

HasSpec-IsAdmitted :
    (sdk : Sdk) (c c' : ScalewayCluster) → HasSpec c c' → IsAdmitted sdk c → IsAdmitted sdk c'
HasSpec-IsAdmitted sdk c c' same given =
    let (region, parsed, domains, balancer, network) = (validate_create-admitted sdk c).0 given in
    (validate_create-admitted sdk c').1 (
      region,
      ap (λ (spec : ScalewayClusterSpec). sdk.parse_region spec.region) same ∙ parsed,
      let e = ap (λ (spec : ScalewayClusterSpec). spec.failure_domains) same in rw e domains,
      let e = ap (λ (spec : ScalewayClusterSpec). spec.control_plane_load_balancer) same in
          rw e balancer,
      let e = ap (λ (spec : ScalewayClusterSpec). spec.network) same in rw e network,
    )

IsUnchanged-refl : (c : ScalewayCluster) → IsUnchanged c c
IsUnchanged-refl c = (refl, refl, refl, refl, refl, refl)

IsUnchanged-trans : (a b c : ScalewayCluster) → IsUnchanged b a → IsUnchanged c b → IsUnchanged c a
IsUnchanged-trans a b c p q = (q.0 ∙ p.0, q.1 ∙ p.1, q.2 ∙ p.2, q.3 ∙ p.3, p.4 ∙ q.4, p.5 ∙ q.5)

-- A deletion leaves the specification.
deleted-HasSpec :
    {S : Type 0} (h : Handler S) (sdk : Sdk) (client : Client) (c : ScalewayCluster) (s : S)
    → HasSpec c (result h (reconcile_delete sdk client c) s).1
deleted-HasSpec h sdk client c s = elim (reconcile_delete-finalizer h sdk client c s) [
  | inl p ↦ let e = p.1 in rw e refl
  | inr p ↦ let e = p.1 in rw e refl
]

kept :
    (sdk : Sdk) (c d : ScalewayCluster)
    → HasSpec c d
    → IsAdmitted sdk c
    → IsAdmitted sdk d × IsUnchanged d c
kept sdk c d same given = (HasSpec-IsAdmitted sdk c d same given, HasSpec-IsUnchanged c d same)

module _ {S : Type 0} (h : Handler S) (sdk : Sdk) (client : Client) where
  step_kept :
      {s : S} {c : ScalewayCluster} {t : S} {d : ScalewayCluster}
      → Step h sdk client s c t d
      → IsAdmitted sdk c
      → IsAdmitted sdk d × IsUnchanged d c
  step_kept (reconciles {s = s} {c = c} live) given =
      kept sdk c (result h (reconcile_normal sdk client c) s).1
        (reconcile_normal-HasSpec h sdk client c s) given
  step_kept (reports {s = s} {c = c} live) given =
      kept sdk c (reported h sdk client s c) (with_finalizer-HasSpec sdk client c) given
  step_kept (persists {s = s} {c = c} live) given =
      kept sdk c (persisted h sdk client s c) (reconcile_normal-HasSpec h sdk client c s) given
  step_kept (finalizes {c = c} live) given =
      kept sdk c (with_finalizer sdk client c) (with_finalizer-HasSpec sdk client c) given
  step_kept (deletes {s = s} {c = c} dying) given =
      kept sdk c (result h (reconcile_delete sdk client c) s).1 (deleted-HasSpec h sdk client c s)
        given
  step_kept (updates {c = c} {spec = spec} checked) given =
      let (unchanged, valid) = (update-admitted sdk (record c { spec = spec }) c).0 checked in
      (valid, unchanged)
  step_kept (marks {c = c}) given = kept sdk c (with_deletion c) refl given
  step_kept (drifts {c = c}) given = (given, IsUnchanged-refl c)

  -- From a cluster that could be created, whatever steps lead to an object, it could be created as
  -- it is, and its immutable fields are those of the first.
  pub reaches_kept :
      {s : S} {c : ScalewayCluster} {t : S} {d : ScalewayCluster}
      → Reaches h sdk client s c t d
      → validate_create sdk c ≡ ok admitted
      → (validate_create sdk d ≡ ok admitted) × IsUnchanged d c
  reaches_kept {c = c} start given = (given, IsUnchanged-refl c)
  reaches_kept {c = c} {d = e} (next {d = d} before step) given =
      let (valid, same) = reaches_kept before given in
      let (valid', same') = step_kept step valid in (valid', IsUnchanged-trans c d e same same')

  patched :
      (c d : ScalewayCluster)
      → IsAdmitted sdk c
      → HasSpec c d
      → validate_update sdk d c ≡ ok admitted
  patched c d given same =
      (update-admitted sdk d c).1
        (HasSpec-IsUnchanged c d same, HasSpec-IsAdmitted sdk c d same given)

  -- Whatever a reconciliation or a deletion of a cluster writes, its update is admitted, where the
  -- cluster could be created.
  pub patch-admitted :
      (c : ScalewayCluster) (s : S)
      → validate_create sdk c ≡ ok admitted
      → (validate_update sdk (with_finalizer sdk client c) c ≡ ok admitted)
        × (validate_update sdk (result h (reconcile_normal sdk client c) s).1 c ≡ ok admitted)
        × (validate_update sdk (result h (reconcile_delete sdk client c) s).1 c ≡ ok admitted)
  patch-admitted c s given =
      let normal = (result h (reconcile_normal sdk client c) s).1 in
      let deleted = (result h (reconcile_delete sdk client c) s).1 in
      (
        patched c (with_finalizer sdk client c) given (with_finalizer-HasSpec sdk client c),
        patched c normal given (reconcile_normal-HasSpec h sdk client c s),
        patched c deleted given (deleted-HasSpec h sdk client c s),
      )
