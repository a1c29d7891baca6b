-- ===== src/Service/Balancer/Members/Backends.antt =====
-- The backends that are kept and deleted.
use cluster_api_provider_sca.Prelude.{
  ◌≡◌, ◌⊎◌, inl, inr, refl, true, false, Option, none, some, List, [], ◌∷◌, ◌++◌, ◌==◌, arith, ap,
  ◌∙◌,
}
use mathlib.Core.Path.{ap₂}
use cluster_api_provider_sca.Result.{ok}
use cluster_api_provider_sca.Cloud.{Request, balancer_api}
use cluster_api_provider_sca.Cloud.Balancer.{
  LoadBalancer, Backend, list_backends, delete_backend, create_backend,
}
use cluster_api_provider_sca.Prog.{Handler, result, changes, ◌>>=◌}
use cluster_api_provider_sca.Prog.Laws.{bind_ok}
use cluster_api_provider_sca.Service.Balancer.Members.{
  prune_backends, create_backend_if_nil, ensure_backend, control_plane_backend_name,
}

-- The requests that delete the backends of other names, in the order listed.
abbrev pub other_backends : LoadBalancer → List Backend → List Request
other_backends balancer [] = []
other_backends balancer (b ∷ bs) =
    let rest = other_backends balancer bs in
    elim (b.name == control_plane_backend_name) [
      | true ↦ rest
      | false ↦ balancer_api (delete_backend balancer.zone b.id) ∷ rest
    ]

-- The last backend of the name, or the one before the list.
abbrev pub last_named : List Backend → Option Backend → Option Backend
last_named [] kept = kept
last_named (b ∷ bs) kept =
    last_named bs (elim (b.name == control_plane_backend_name) [ true ↦ some b | false ↦ kept ])

abbrev deletion : LoadBalancer → Backend → Request
deletion balancer b = balancer_api (delete_backend balancer.zone b.id)

prune_backends_ok :
    {S : Type 0} (h : Handler S) (balancer : LoadBalancer) (bs : List Backend)
    (kept : Option Backend) (s : S) {r : Option Backend}
    → result h (prune_backends balancer bs kept) s ≡ ok r
    → (r ≡ last_named bs kept)
      × (changes h (prune_backends balancer bs kept) s ≡ other_backends balancer bs)
unfolding prune_backends
prune_backends_ok h balancer [] kept s e = ground arith
prune_backends_ok h balancer (b ∷ bs) kept s {r} e = ground (
  arith,
  prune_backends_ok h balancer bs (some b) s {r = r},
  prune_backends_ok h balancer bs kept (h (deletion balancer b) s).1 {r = r},
)

abbrev pub creation_if_none : LoadBalancer → Option Backend → List Request
creation_if_none balancer (some b) = []
creation_if_none balancer none =
    balancer_api (
      create_backend (record {
        zone = balancer.zone;
        balancer = balancer.id;
        name = "control-plane";
        forward_port = 6443;
        check_port = 6443;
        check_max_retries = 5;
      }))
    ∷ []

creation :
    {S : Type 0} (h : Handler S) (balancer : LoadBalancer) (kept : Option Backend) (s : S)
    → changes h (create_backend_if_nil balancer kept) s ≡ creation_if_none balancer kept
unfolding create_backend_if_nil
creation h balancer (some b) s = refl
creation h balancer none s = ground arith

kept_backend :
    {S : Type 0} (h : Handler S) (balancer : LoadBalancer) (kept : Option Backend) (s : S)
    {backend : Backend}
    → result h (create_backend_if_nil balancer kept) s ≡ ok backend
    → (kept ≡ none) ⊎ (kept ≡ some backend)
unfolding create_backend_if_nil
kept_backend h balancer none s done = inl refl
kept_backend h balancer (some b) s done = inr (cc)

abbrev all_backends : LoadBalancer → Request
all_backends balancer = balancer_api (list_backends balancer.zone balancer.id none)

-- Where the backend of the control plane is ensured, every listed backend of another name is
-- deleted and no other one; the last listed one of the name is the result, and if there is none it
-- is created after the deletions, on port 6443.
pub changes-ensure_backend :
    {S : Type 0} (h : Handler S) (balancer : LoadBalancer) (s : S) {bs : List Backend}
    {backend : Backend}
    → (h (balancer_api (list_backends balancer.zone balancer.id none)) s).0 ≡ ok bs
    → result h (ensure_backend balancer) s ≡ ok backend
    → (changes h (ensure_backend balancer) s
        ≡ other_backends balancer bs ++ creation_if_none balancer (last_named bs none))
      × ((last_named bs none ≡ none) ⊎ (last_named bs none ≡ some backend))
unfolding ensure_backend
changes-ensure_backend h balancer s {bs} {backend} listed done =
    let t = (h (all_backends balancer) s).1 in
    let run : result h (prune_backends balancer bs none >>= create_backend_if_nil balancer) t
        ≡ ok backend =
      rw (listed, result) at done in
    let parts =
      bind_ok h (prune_backends balancer bs none) (create_backend_if_nil balancer) t run in
    let pruned = prune_backends_ok h balancer bs none t parts.first in
    rw (listed, changes)
      (
        parts.changed
            ∙ ap₂ ◌++◌ pruned.1
                (creation h balancer parts.value _ ∙ ap (creation_if_none balancer) pruned.0),
        rw⁻¹ pruned.0 (kept_backend h balancer parts.value _ parts.second),
      )
