-- ===== src/Controller/Secret/Safe.antt =====
-- Panics of internal/controller/secret.go.
use cluster_api_provider_sca.Prelude.{◌≢◌, refl, String, Option, none, some, arith}
use cluster_api_provider_sca.Cloud.{kube_api}
use cluster_api_provider_sca.Cloud.Kube.{get_secret, ClientOptions, Secret, new_client}
use cluster_api_provider_sca.Prog.{Handler, ask, ◌>>=◌}
use cluster_api_provider_sca.Prog.Runs.{AnyError, Any, Meets, Runs, Runs-bind, IsCalm}
use cluster_api_provider_sca.Api.Cluster.{ScalewayCluster}
use cluster_api_provider_sca.Controller.Secret.{client_from_secret, take_ownership, options_of, new}

-- Every client that is made has a default project.
abbrev pub HaveProjects : {S : Type 0} → Handler S → Type 0
HaveProjects h =
    (options : ClientOptions) (s : _)
    → Meets AnyError (λ project. project ≢ none) (h (kube_api (new_client options)) s).0

module _ {S : Type 0} (h : Handler S) (calm : IsCalm h) (projects : HaveProjects h)
    (c : ScalewayCluster) where
  own-Runs : (secret : Secret) → Runs h AnyError Any (take_ownership secret c)
  unfolding take_ownership
  own-Runs secret s = grind (arith, calm)

  pub client-Runs : Runs h AnyError (λ project. project ≢ none) (client_from_secret c)
  unfolding client_from_secret
  client-Runs =
      let read = get_secret c.meta.namespace c.spec.scaleway_secret_name in
      let make = λ (owned : Secret). ask (kube_api (new_client (options_of owned))) in
      Runs-bind h AnyError Any (λ project. project ≢ none) (ask (kube_api read))
        (λ secret. take_ownership secret c >>= make) (λ s. calm (kube_api read) s)
        (λ secret _.
          Runs-bind h AnyError Any (λ project. project ≢ none) (take_ownership secret c) make
            (own-Runs secret) (λ owned _ s. projects (options_of owned) s))

pub new-plain : (project : Option String) → project ≢ none → Meets AnyError Any (new project)
unfolding new
new-plain none given = absurd (given refl)
new-plain (some project) given = tt
