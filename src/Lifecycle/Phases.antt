-- ===== src/Lifecycle/Phases.antt =====
-- The phases that a cluster goes through.
use cluster_api_provider_sca.Prelude.{
  ◌≡◌, ◌⊎◌, refl, ap, ◌∙◌, Bool, true, false, not, inl, inr, List, [], ◌∷◌, ◌++◌, ◌==◌, String,
  contains_func, select, ℕ, ◌≤◌, arith, eq_refl,
}
use cluster_api_provider_sca.Sdk.{Sdk}
use cluster_api_provider_sca.Prog.{Handler, result}
use cluster_api_provider_sca.Client.{Client}
use cluster_api_provider_sca.Api.Cluster.{ScalewayCluster, ObjectMeta, cluster_finalizer}
use cluster_api_provider_sca.Controller.Finalizers.{has_finalizer}
use cluster_api_provider_sca.Controller.Cluster.{
  with_finalizer, without_finalizer, reconcile_normal, reconcile_delete,
}
use cluster_api_provider_sca.Controller.Cluster.Laws.{reconcile_delete-finalizer}
use cluster_api_provider_sca.Controller.Cluster.Ready.{reconcile_normal-Marked}
use cluster_api_provider_sca.Lifecycle.{
  reported, persisted, Step, Reaches, reconciles, reports, persists, finalizes, deletes, updates,
  marks, drifts, start, next,
}

-- Without the finalizer; with it; ready; marked for deletion with the finalizer, and without it,
-- when the API server lets it go.
pub data Phase : Type 0 where
  unheld : Phase
  held : Phase
  serving : Phase
  leaving : Phase
  gone : Phase

abbrev pub phase_of : Bool → Bool → Bool → Phase
phase_of true true ready = leaving
phase_of true false ready = gone
phase_of false true true = serving
phase_of false true false = held
phase_of false false ready = unheld

abbrev pub phase : ScalewayCluster → Phase
phase c = phase_of c.meta.deleting (has_finalizer cluster_finalizer c.meta) c.status.ready

-- The moves of the abstract machine.
pub data Move : Phase → Phase → Type 0 where
  rest : {p : Phase} → Move p p
  hold : Move unheld held
  hold_serve : Move unheld serving
  serve : Move held serving
  leave_held : Move held leaving
  leave_serving : Move serving leaving
  forget : Move unheld gone
  release : Move leaving gone

pub contains_added :
    (f : String) (xs : List String) → contains_func (λ g. g == f) (xs ++ f ∷ []) ≡ true
contains_added f [] = let e = eq_refl f in ground arith
contains_added f (x ∷ xs) = let later = contains_added f xs in ground arith

pub contains_removed :
    (f : String) (xs : List String)
    → contains_func (λ g. g == f) (select (λ g. not (g == f)) xs) ≡ false
contains_removed f [] = refl
contains_removed f (x ∷ xs) = let later = contains_removed f xs in ground arith

module _ (sdk : Sdk) (client : Client) (c : ScalewayCluster) where
  pub finalizer_added : has_finalizer cluster_finalizer (with_finalizer sdk client c).meta ≡ true
  finalizer_added = let added = contains_added cluster_finalizer c.meta.finalizers in ground arith

  finalizer_removed : has_finalizer cluster_finalizer (without_finalizer sdk client c).meta ≡ false
  finalizer_removed = contains_removed cluster_finalizer c.meta.finalizers

  finalizer_kept :
      ((with_finalizer sdk client c).meta.deleting ≡ c.meta.deleting)
      × ((with_finalizer sdk client c).status.ready ≡ c.status.ready)
  finalizer_kept = ground arith

-- What a reconciliation may do to the two marks of an object that is not to be deleted.
held-Move :
    (f r r' : Bool) → (r' ≡ true) ⊎ (r' ≡ r) → Move (phase_of false f r) (phase_of false true r')
held-Move true true true how = rest
held-Move true true false (inl p) = absurd (cc)
held-Move true true false (inr p) = absurd (cc)
held-Move true false true how = serve
held-Move true false false how = rest
held-Move false r true how = hold_serve
held-Move false r false how = hold

pub marked-Move : (d f r : Bool) → Move (phase_of d f r) (phase_of true f r)
marked-Move true f r = rest
marked-Move false true true = leave_serving
marked-Move false true false = leave_held
marked-Move false false r = forget

pub live-Move :
    (d f r d' f' r' : Bool)
    → d ≡ false
    → d' ≡ false
    → f' ≡ true
    → (r' ≡ true) ⊎ (r' ≡ r)
    → Move (phase_of d f r) (phase_of d' f' r')
live-Move d f r d' f' r' live stays has how = rw (live, stays, has) (held-Move f r r' how)

released-Move : (f r r' : Bool) → Move (phase_of true f r) (phase_of true false r')
released-Move true r r' = release
released-Move false r r' = rest

pub dying-Move : (d f f' r : Bool) → d ≡ true → f' ≡ false → Move (phase_of d f r) (phase_of d f' r)
dying-Move d f f' r dying lost = rw (dying, lost) (released-Move f r r)

module _ {S : Type 0} (h : Handler S) (sdk : Sdk) (client : Client) where
  -- An object with the metadata of the one with its finalizer, ready or as ready as before.
  finalized-Move :
      (c d : ScalewayCluster)
      → c.meta.deleting ≡ false
      → d.meta ≡ (with_finalizer sdk client c).meta
      → (d.status.ready ≡ true) ⊎ (d.status.ready ≡ c.status.ready)
      → Move (phase c) (phase d)
  finalized-Move c d live meta how =
      live-Move c.meta.deleting (has_finalizer cluster_finalizer c.meta) c.status.ready
        d.meta.deleting (has_finalizer cluster_finalizer d.meta) d.status.ready live
        (ap (λ (m : ObjectMeta). m.deleting) meta ∙ ((finalizer_kept sdk client c).0 ∙ live))
        (ap (has_finalizer cluster_finalizer) meta ∙ finalizer_added sdk client c) how

  marked_ready :
      (c : ScalewayCluster) (s : S)
      → let d = (result h (reconcile_normal sdk client c) s).1 in
        (d.status.ready ≡ true) ⊎ (d.status.ready ≡ c.status.ready)
  marked_ready c s = elim (reconcile_normal-Marked h sdk client c s).1 [
    | inl p ↦ inl p.1
    | inr p ↦ inr (p.1 ∙ (finalizer_kept sdk client c).1)
  ]

  deleted-Move :
      (c : ScalewayCluster) (s : S)
      → c.meta.deleting ≡ true
      → Move (phase c) (phase (result h (reconcile_delete sdk client c) s).1)
  deleted-Move c s dying = elim (reconcile_delete-finalizer h sdk client c s) [
    | inl p ↦
        let e = p.1 in
        rw e (
          dying-Move c.meta.deleting (has_finalizer cluster_finalizer c.meta)
            (has_finalizer cluster_finalizer (without_finalizer sdk client c).meta) c.status.ready
            dying (finalizer_removed sdk client c))
    | inr p ↦ let e = p.1 in rw e rest
  ]

  -- Every step of a cluster is a move of the phases: the finalizer comes with a reconciliation,
  -- readiness after it or with it, and it goes only with a deletion.
  pub step-Move :
      {s : S} {c : ScalewayCluster} {t : S} {d : ScalewayCluster}
      → Step h sdk client s c t d
      → Move (phase c) (phase d)
  step-Move (reconciles {s = s} {c = c} live) =
      finalized-Move c (result h (reconcile_normal sdk client c) s).1 live
        (reconcile_normal-Marked h sdk client c s).0 (marked_ready c s)
  step-Move (reports {s = s} {c = c} live) =
      finalized-Move c (reported h sdk client s c) live refl (marked_ready c s)
  step-Move (persists {s = s} {c = c} live) =
      finalized-Move c (persisted h sdk client s c) live
        (reconcile_normal-Marked h sdk client c s).0 (inr refl)
  step-Move (finalizes {c = c} live) =
      finalized-Move c (with_finalizer sdk client c) live refl (inr (finalizer_kept sdk client c).1)
  step-Move (deletes {s = s} {c = c} dying) = deleted-Move c s dying
  step-Move (updates {c = c} checked) = rest
  step-Move (marks {c = c}) =
      marked-Move c.meta.deleting (has_finalizer cluster_finalizer c.meta) c.status.ready
  step-Move drifts = rest

abbrev pub rank : Phase → ℕ
rank unheld = 0
rank held = 1
rank serving = 2
rank leaving = 3
rank gone = 4

Move-rank : {p q : Phase} → Move p q → rank p ≤ rank q
Move-rank rest = omega arith
Move-rank hold = omega arith
Move-rank hold_serve = omega arith
Move-rank serve = omega arith
Move-rank leave_held = omega arith
Move-rank leave_serving = omega arith
Move-rank forget = omega arith
Move-rank release = omega arith

module _ {S : Type 0} (h : Handler S) (sdk : Sdk) (client : Client) where
  -- No sequence of steps takes a cluster back to an earlier phase: one that is ready stays ready
  -- until it is marked for deletion, and one that is gone stays gone.
  pub reaches_forward :
      {s : S} {c : ScalewayCluster} {t : S} {d : ScalewayCluster}
      → Reaches h sdk client s c t d
      → rank (phase c) ≤ rank (phase d)
  reaches_forward start = omega arith
  reaches_forward (next before step) =
      let earlier = reaches_forward before in
      let last = Move-rank (step-Move h sdk client step) in omega (arith, earlier, last)
