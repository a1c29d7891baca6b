-- ===== src/Controller/Cluster/Whole.antt =====
-- `Reconcile` of the cluster controller, from the read of the object to the patch of it.
use cluster_api_provider_sca.Prelude.{
  ◌≡◌, ◌≢◌, Bool-cases, inl, inr, String, Option, none, some, arith,
}
use cluster_api_provider_sca.Result.{Result, ok, err, panicked, is_not_found, wrapped}
use cluster_api_provider_sca.Sdk.{Sdk}
use cluster_api_provider_sca.Sdk.Plain.{IsPlain}
use cluster_api_provider_sca.Cloud.{kube_api}
use cluster_api_provider_sca.Cloud.Kube.{get_owner_cluster, get_scaleway_cluster}
use cluster_api_provider_sca.Prog.{bind, ask, wrapping, lift, ◌>>=◌, Handler, result}
use cluster_api_provider_sca.Prog.Laws.{result-bind}
use cluster_api_provider_sca.Prog.Runs.{
  AnyError, Any, Meets, Runs, Runs-bind, Runs-wrapping, Meets-calm, IsCalm,
}
use cluster_api_provider_sca.Client.{Client}
use cluster_api_provider_sca.Api.Cluster.{ScalewayCluster}
use cluster_api_provider_sca.Api.Machine.{OwnerCluster}
use cluster_api_provider_sca.Scope.Cluster.{Scope, has_private_network, new_cluster}
use cluster_api_provider_sca.Service.Vpc.Safe.{IsUsable}
use cluster_api_provider_sca.Controller.Secret.{client_from_secret, new}
use cluster_api_provider_sca.Controller.Secret.Safe.{HaveProjects, client-Runs, new-plain}
use cluster_api_provider_sca.Controller.Cluster.{
  Outcome, close, zero_cluster, reconcile_with, reconcile_scoped, reconcile_owned, reconcile_object,
  after_read, reconcile,
}
use cluster_api_provider_sca.Controller.Cluster.Safe.{reconcile_normal-Fine, reconcile_delete-Fine}

-- An outside that makes no call panic, serves clusters whose status has a place for the Private
-- Network that the user gave, and makes clients with a default project.
pub record IsServed {S : Type 0} (h : Handler S) : Type 0 where
  pub calm : IsCalm h
  pub usable :
      (namespace name : String) (s : S)
      → Meets AnyError IsUsable (h (kube_api (get_scaleway_cluster namespace name)) s).0
  pub projects : HaveProjects h

zero-IsUsable : IsUsable zero_cluster
unfolding has_private_network
zero-IsUsable has = absurd (cc)

module _ {S : Type 0} (h : Handler S) (served : IsServed h) (sdk : Sdk) (plain : IsPlain sdk) where
  close-Runs : (o : Outcome) → Meets AnyError Any o.0 → Runs h AnyError Any (close o)
  unfolding close
  close-Runs (ok q, c) fine s = let calm = served.calm in grind (arith, calm)
  close-Runs (err e, c) fine s = let calm = served.calm in grind (arith, calm)
  close-Runs (panicked, c) fine s = absurd fine

  reconcile_with-Fine :
      (client : Client) (c : ScalewayCluster)
      → IsUsable c
      → (s : S) → Meets AnyError Any (result h (reconcile_with sdk client c) s).0
  unfolding reconcile_with
  reconcile_with-Fine client c usable s =
      let normal = reconcile_normal-Fine h served.calm sdk plain client c usable s in
      let deletion = reconcile_delete-Fine h served.calm sdk plain client c s in
      grind (arith, normal, deletion)

  closed-Runs :
      (client : Client) (c : ScalewayCluster)
      → IsUsable c
      → Runs h AnyError Any (bind (reconcile_with sdk client c) close)
  closed-Runs client c usable s = rw (result-bind h (reconcile_with sdk client c) close s) (
      close-Runs (result h (reconcile_with sdk client c) s) (reconcile_with-Fine client c usable s)
        _)

  scope-Runs :
      (client : Client) (c : ScalewayCluster)
      → Runs h AnyError (λ scope. scope.cluster ≡ c) (new_cluster client c)
  unfolding new_cluster
  scope-Runs client c s = let calm = served.calm in grind (arith, calm)

  scoped-Runs : (c : ScalewayCluster) → IsUsable c → Runs h AnyError Any (reconcile_scoped sdk c)
  unfolding reconcile_scoped
  scoped-Runs c usable =
      let last = λ (scope : Scope). bind (reconcile_with sdk scope.client scope.cluster) close in
      let with_client = λ (client : Client). new_cluster client c >>= last in
      Runs-bind h AnyError (λ project. project ≢ none) Any (client_from_secret c)
        (λ project. lift (new project) >>= with_client)
        (client-Runs h served.calm served.projects c)
        (λ project given.
          Runs-bind h AnyError Any Any (lift (new project)) with_client
            (λ _. new-plain project given)
            (λ client _.
              Runs-bind h AnyError (λ scope. scope.cluster ≡ c) Any (new_cluster client c) last
                (scope-Runs client c)
                (λ scope same. closed-Runs scope.client scope.cluster (rw same usable))))

  owned-Runs :
      (c : ScalewayCluster)
      → IsUsable c
      → (owner : Option OwnerCluster) → Runs h AnyError Any (reconcile_owned sdk c owner)
  unfolding reconcile_owned
  owned-Runs c usable none s = tt
  owned-Runs c usable (some owner) s = elim (Bool-cases (sdk.is_paused owner c.meta)) [
    | inl paused ↦ rw paused tt
    | inr running ↦ rw running (scoped-Runs c usable s)
  ]

  object-Runs : (c : ScalewayCluster) → IsUsable c → Runs h AnyError Any (reconcile_object sdk c)
  unfolding reconcile_object
  object-Runs c usable =
      let read = ask (kube_api (get_owner_cluster c.meta)) in
      Runs-bind h AnyError Any Any (wrapping read (wrapped "failed to get owner cluster"))
        (reconcile_owned sdk c)
        (Runs-wrapping h Any "failed to get owner cluster" read (λ s. served.calm _ s))
        (λ owner _. owned-Runs c usable owner)

  read-Runs :
      (r : Result ScalewayCluster)
      → Meets AnyError IsUsable r
      → Runs h AnyError Any (after_read sdk r)
  read-Runs (ok c) usable s = object-Runs c usable s
  read-Runs (err e) usable s = elim (Bool-cases (is_not_found e)) [
    | inl missing ↦ rw missing tt
    | inr failed ↦ rw failed (object-Runs zero_cluster zero-IsUsable s)
  ]
  read-Runs panicked usable s = usable

  -- `Reconcile` of a cluster never panics, whatever the outside answers, as long as no call and no function
  -- of a library panics,
  -- the clusters that it reads have a status with a place for a Private Network that the user gave,
  -- and every client has a default project.
  pub reconcile_calm :
      (namespace name : String) (s : S) → result h (reconcile sdk namespace name) s ≢ panicked
  unfolding reconcile
  reconcile_calm namespace name s = Meets-calm _ (
      read-Runs (h (kube_api (get_scaleway_cluster namespace name)) s).0
        (served.usable namespace name s) _)
