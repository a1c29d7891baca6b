-- ===== src/Controller/Secret.antt =====
-- internal/controller/secret.go
pub mod Safe
use cluster_api_provider_sca.Prelude.{
  String, Bool, true, Option, none, some, ◌==◌, contains_func, option_eq, if◌then◌else◌,
}
use cluster_api_provider_sca.Result.{Result, ok, panicked, wrapped}
use cluster_api_provider_sca.Cloud.{kube_api}
use cluster_api_provider_sca.Cloud.Kube.{
  Secret, ClientOptions, get_secret, set_owner_reference, update_secret, new_client,
}
use cluster_api_provider_sca.Prog.{Io, ask, pure, wrapping, ◌>>=◌, ◌>>◌}
use cluster_api_provider_sca.Client.{Client}
use cluster_api_provider_sca.Api.Cluster.{ScalewayCluster}
use cluster_api_provider_sca.Scope.Machine.{lookup}

-- `string(secret.Data[key])`: a missing key reads as the empty text.
abbrev text_or_empty : Option String → String
text_or_empty none = ""
text_or_empty (some v) = v

abbrev value_of : Secret → String → String
value_of secret key = text_or_empty (lookup key secret.entries)

abbrev given_url : String → Option String
given_url url = if url == "" then none else some url

-- `metav1.IsControlledBy`, and the search through the owner references.
abbrev is_owned : Secret → ScalewayCluster → Bool
is_owned secret c =
    if option_eq (λ a b. a == b) secret.controller (some c.meta.uid)
    then true
    else contains_func (λ owner. owner == c.meta.uid) secret.owners

abbrev options_of : Secret → ClientOptions
options_of secret = record {
  access_key = value_of secret "accessKey";
  secret_key = value_of secret "secretKey";
  project_id = value_of secret "projectID";
  api_url = given_url (value_of secret "apiURL");
}

take_ownership : Secret → ScalewayCluster → Io Secret
take_ownership secret c = if is_owned secret c then pure secret else (do
  owned ←
      wrapping (ask (kube_api (set_owner_reference c secret)))
        (wrapped "failed to set owner reference for secret")
  wrapping (ask (kube_api (update_secret owned))) (wrapped "failed to update secret")
  pure owned)

-- `clientFromSecret`: the default project of the client.
unfoldable pub client_from_secret : ScalewayCluster → Io (Option String)
unfolding take_ownership
client_from_secret c = do
  secret ← ask (kube_api (get_secret c.meta.namespace c.spec.scaleway_secret_name))
  owned ← take_ownership secret c
  ask (kube_api (new_client (options_of owned)))

-- `scwClient.New`, which panics where the client has no default project.
unfoldable pub new : Option String → Result Client
new none = panicked
new (some project) = ok (record { project_id = project })
