-- ===== src/Service/Balancer/Members/Frontends.antt =====
-- The frontends that are kept and deleted.
use cluster_api_provider_sca.Prelude.{
  ◌≡◌, ◌⊎◌, inl, inr, refl, true, false, Option, none, some, List, [], ◌∷◌, ◌++◌, ◌==◌, arith, ap,
  ◌∙◌,
}
use mathlib.Core.Path.{ap₂}
use cluster_api_provider_sca.Result.{ok}
use cluster_api_provider_sca.Cloud.{Request, balancer_api}
use cluster_api_provider_sca.Cloud.Balancer.{
  LoadBalancer, Backend, Frontend, list_frontends, delete_frontend, create_frontend, list_frontends,
  delete_frontend, create_frontend,
}
use cluster_api_provider_sca.Prog.{Handler, result, changes, ◌>>=◌}
use cluster_api_provider_sca.Prog.Laws.{bind_ok}
use cluster_api_provider_sca.Service.Balancer.Members.{
  prune_frontends, prune_frontends, create_frontend_if_nil, create_frontend_if_nil, ensure_frontend,
  ensure_frontend, control_plane_frontend_name, control_plane_frontend_name,
}

-- The requests that delete the frontends of other names, in the order listed.
abbrev pub other_frontends : LoadBalancer → List Frontend → List Request
other_frontends balancer [] = []
other_frontends balancer (b ∷ bs) =
    let rest = other_frontends balancer bs in
    elim (b.name == control_plane_frontend_name) [
      | true ↦ rest
      | false ↦ balancer_api (delete_frontend balancer.zone b.id) ∷ rest
    ]

-- The last frontend of the name, or the one before the list.
abbrev pub last_named : List Frontend → Option Frontend → Option Frontend
last_named [] kept = kept
last_named (b ∷ bs) kept =
    last_named bs (elim (b.name == control_plane_frontend_name) [ true ↦ some b | false ↦ kept ])

abbrev deletion : LoadBalancer → Frontend → Request
deletion balancer b = balancer_api (delete_frontend balancer.zone b.id)

prune_frontends_ok :
    {S : Type 0} (h : Handler S) (balancer : LoadBalancer) (bs : List Frontend)
    (kept : Option Frontend) (s : S) {r : Option Frontend}
    → result h (prune_frontends balancer bs kept) s ≡ ok r
    → (r ≡ last_named bs kept)
      × (changes h (prune_frontends balancer bs kept) s ≡ other_frontends balancer bs)
unfolding prune_frontends
prune_frontends_ok h balancer [] kept s e = ground arith
prune_frontends_ok h balancer (b ∷ bs) kept s {r} e = ground (
  arith,
  prune_frontends_ok h balancer bs (some b) s {r = r},
  prune_frontends_ok h balancer bs kept (h (deletion balancer b) s).1 {r = r},
)

abbrev pub creation_if_none : LoadBalancer → Backend → Option Frontend → List Request
creation_if_none balancer backend (some b) = []
creation_if_none balancer backend none =
    balancer_api (
      create_frontend (record {
        zone = balancer.zone;
        balancer = balancer.id;
        name = "control-plane";
        inbound_port = 6443;
        backend = backend.id;
      }))
    ∷ []

creation :
    {S : Type 0} (h : Handler S) (balancer : LoadBalancer) (backend : Backend)
    (kept : Option Frontend) (s : S)
    → changes h (create_frontend_if_nil balancer backend kept) s
      ≡ creation_if_none balancer backend kept
unfolding create_frontend_if_nil
creation h balancer backend (some b) s = refl
creation h balancer backend none s = ground arith

kept_frontend :
    {S : Type 0} (h : Handler S) (balancer : LoadBalancer) (backend : Backend)
    (kept : Option Frontend) (s : S) {frontend : Frontend}
    → result h (create_frontend_if_nil balancer backend kept) s ≡ ok frontend
    → (kept ≡ none) ⊎ (kept ≡ some frontend)
unfolding create_frontend_if_nil
kept_frontend h balancer backend none s done = inl refl
kept_frontend h balancer backend (some b) s done = inr (cc)

abbrev all_frontends : LoadBalancer → Request
all_frontends balancer = balancer_api (list_frontends balancer.zone balancer.id none)

-- Where the frontend of the control plane is ensured, every listed frontend of another name is
-- deleted and no other one; the last listed one of the name is the result, and if there is none it
-- is created after the deletions, on port 6443.
pub changes-ensure_frontend :
    {S : Type 0} (h : Handler S) (balancer : LoadBalancer) (backend : Backend) (s : S)
    {bs : List Frontend} {frontend : Frontend}
    → (h (balancer_api (list_frontends balancer.zone balancer.id none)) s).0 ≡ ok bs
    → result h (ensure_frontend balancer backend) s ≡ ok frontend
    → (changes h (ensure_frontend balancer backend) s
        ≡ other_frontends balancer bs ++ creation_if_none balancer backend (last_named bs none))
      × ((last_named bs none ≡ none) ⊎ (last_named bs none ≡ some frontend))
unfolding ensure_frontend
changes-ensure_frontend h balancer backend s {bs} {frontend} listed done =
    let t = (h (all_frontends balancer) s).1 in
    let run : result h
          (prune_frontends balancer bs none >>= create_frontend_if_nil balancer backend) t
        ≡ ok frontend =
      rw (listed, result) at done in
    let parts =
      bind_ok h (prune_frontends balancer bs none) (create_frontend_if_nil balancer backend) t
        run in
    let pruned = prune_frontends_ok h balancer bs none t parts.first in
    rw (listed, changes)
      (
        parts.changed
            ∙ ap₂ ◌++◌ pruned.1 (
                creation h balancer backend parts.value _
                ∙ ap (creation_if_none balancer backend) pruned.0),
        rw⁻¹ pruned.0 (kept_frontend h balancer backend parts.value _ parts.second),
      )
