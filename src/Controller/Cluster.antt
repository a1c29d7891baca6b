-- ===== src/Controller/Cluster.antt =====
-- internal/controller/scalewaycluster_controller.go
pub mod Laws
pub mod Ready
pub mod Done
pub mod Reused
pub mod First
pub mod Order
pub mod Safe
pub mod Whole
pub mod Serving
pub mod Ends
pub mod Live
pub mod Frame
use cluster_api_provider_sca.Prelude.{
  ℕ, String, Bool, true, false, Option, none, some, List, [], if◌then◌else◌,
}
use cluster_api_provider_sca.Result.{
  Error, Result, ok, err, panicked, wrap, wrapped, is_not_found, is_load_balancer_not_ready,
  is_precondition_failed,
}
use cluster_api_provider_sca.Sdk.{Sdk}
use cluster_api_provider_sca.Cloud.{kube_api}
use cluster_api_provider_sca.Cloud.Kube.{get_scaleway_cluster, get_owner_cluster}
use cluster_api_provider_sca.Prog.{Prog, Io, ret, bind, ask, pure, wrapping, ◌>>=◌, ◌>>◌}
use cluster_api_provider_sca.Client.{Client}
use cluster_api_provider_sca.Api.Cluster.{
  ScalewayCluster, ScalewayClusterSpec, ObjectMeta, cluster_finalizer,
}
use cluster_api_provider_sca.Api.Machine.{OwnerCluster}
use cluster_api_provider_sca.Scope.Cluster.{Scope, new_cluster, patch_object, failure_domains}
use cluster_api_provider_sca.Service.Vpc
use cluster_api_provider_sca.Service.Gateway
use cluster_api_provider_sca.Service.Balancer.Reconcile as Balancer
use cluster_api_provider_sca.Service.Group.Ensure as Group
use cluster_api_provider_sca.Controller.Secret.{client_from_secret, new}
use cluster_api_provider_sca.Controller.Finalizers.{has_finalizer, add_finalizer, remove_finalizer}

-- `ctrl.Result`: the seconds after which the object is looked at again.
pub data Requeue : Type 0 where
  done : Requeue
  after : ℕ → Requeue

-- What a reconciler returns, with the object as it leaves it.
abbrev pub Outcome : Type 0
Outcome = Result Requeue × ScalewayCluster

abbrev pub keep {ℓ} : {A : Type ℓ} → Io A → ScalewayCluster → (A → Prog Outcome) → Prog Outcome
keep m c f =
    bind m (λ r. elim r [ ok a ↦ f a | err e ↦ ret (err e, c) | panicked ↦ ret (panicked, c) ])

-- A step that leaves an object of its own: what follows, and what an error gives.
abbrev pub after_step :
    Prog (Result (Unit {0}) × ScalewayCluster)
    → (Error → Result Requeue)
    → (ScalewayCluster → Prog Outcome)
    → Prog Outcome
after_step m handle f =
    bind m (λ p. elim p.0 [
      | ok u ↦ f p.1
      | err e ↦ ret (handle e, p.1)
      | panicked ↦ ret (panicked, p.1)
    ])

abbrev pub not_ready_error : Bool → Error → Result Requeue
not_ready_error true e = ok (after 2)
not_ready_error false e = err (wrap "failed to reconcile loadbalancer" e)

abbrev pub precondition_error : Bool → Error → Result Requeue
precondition_error true e = ok (after 2)
precondition_error false e = err e

module _ (sdk : Sdk) (client : Client) where
  abbrev scope_of : ScalewayCluster → Scope
  scope_of c = record { client = client; cluster = c }

  abbrev pub with_domains : ScalewayCluster → ScalewayCluster
  with_domains c = record c { status = record c.status { failure_domains = failure_domains sdk c } }

  abbrev pub with_ready : ScalewayCluster → ScalewayCluster
  with_ready c = record c { status = record c.status { ready = true } }

  abbrev pub with_finalizer : ScalewayCluster → ScalewayCluster
  with_finalizer c =
      if has_finalizer cluster_finalizer c.meta
      then c
      else record c { meta = add_finalizer cluster_finalizer c.meta }

  abbrev pub without_finalizer : ScalewayCluster → ScalewayCluster
  without_finalizer c = record c { meta = remove_finalizer cluster_finalizer c.meta }

  -- The patch that follows the addition of the finalizer.
  unfoldable pub patch_finalizer : ScalewayCluster → Io (Unit {0})
  unfolding patch_object
  patch_finalizer c =
      if has_finalizer cluster_finalizer c.meta then pure tt else patch_object (with_finalizer c)

  -- The last service, after which the object is ready.
  unfoldable pub balancer_step : ScalewayCluster → Prog Outcome
  balancer_step c =
      after_step (Balancer.reconcile sdk (scope_of c))
        (λ e. not_ready_error (is_load_balancer_not_ready e) e) (λ c'. ret (ok done, with_ready c'))

  -- What follows the Private Network, on the object with its identifier.
  unfoldable pub after_network : ScalewayCluster → Prog Outcome
  after_network c =
      keep (wrapping (Gateway.reconcile (scope_of c)) (wrapped "failed to reconcile vpcgw")) c
        λ _. balancer_step c

  unfoldable pub network_step : ScalewayCluster → Prog Outcome
  network_step c =
      after_step (Vpc.reconcile sdk (scope_of c)) (λ e. err (wrap "failed to reconcile vpc" e))
        after_network

  -- The services in their order, from the object with its failure domains.
  unfoldable pub reconcile_services : ScalewayCluster → Prog Outcome
  reconcile_services c = keep (Group.reconcile sdk (scope_of c)) c λ _. network_step c

  -- `reconcileNormal`
  unfoldable pub reconcile_normal : ScalewayCluster → Prog Outcome
  unfolding patch_finalizer
  reconcile_normal c =
      keep (patch_finalizer c) (with_finalizer c)
        λ _. reconcile_services (with_domains (with_finalizer c))

  -- The deletion of the Private Network, which is tried again while something is attached to it.
  unfoldable pub delete_network : ScalewayCluster → Prog Outcome → Prog Outcome
  delete_network c rest = bind (Vpc.delete sdk (scope_of c)) (λ r. elim r [
    | ok u ↦ rest
    | err e ↦ ret (precondition_error (is_precondition_failed e) e, c)
    | panicked ↦ ret (panicked, c)
  ])

  -- `reconcileDelete`
  unfoldable pub reconcile_delete : ScalewayCluster → Prog Outcome
  unfolding delete_network
  reconcile_delete c = keep (Balancer.delete (scope_of c)) c λ _.
      keep (Gateway.delete (scope_of c)) c λ _.
        delete_network c
          (keep (Group.delete sdk (scope_of c)) c λ _. ret (ok done, without_finalizer c))

-- The deferred `Close`: the object is patched whatever happened, and an error of the patch is
-- returned where there was no other.
abbrev pub close_result : Result Requeue → Result (Unit {0}) → Result Requeue
close_result (ok q) (err e) = err e
close_result (ok q) panicked = panicked
close_result (err e) panicked = panicked
close_result r _ = r

unfoldable pub close : Outcome → Io Requeue
unfolding patch_object
close (r, c) = bind (patch_object c) (λ p. ret (close_result r p))

-- The object that an error other than "not found" leaves: Go's zero value.
abbrev pub zero_cluster : ScalewayCluster
zero_cluster = record {
  meta = record {
    name = "";
    namespace = "";
    uid = "";
    finalizers = [];
    annotations = [];
    deleting = false;
  };
  spec = record {
    control_plane_endpoint = record { host = ""; port = 0 };
    failure_domains = [];
    region = "";
    network = none;
    control_plane_load_balancer = none;
    scaleway_secret_name = "";
  };
  status = record { ready = false; failure_domains = []; network = none };
}

module _ (sdk : Sdk) where
  reconcile_with : Client → ScalewayCluster → Prog Outcome
  reconcile_with client c =
      if c.meta.deleting then reconcile_delete sdk client c else reconcile_normal sdk client c

  -- From the client on.
  reconcile_scoped : ScalewayCluster → Io Requeue
  unfolding reconcile_with new_cluster
  reconcile_scoped c = do
    project ← client_from_secret c
    client ← ret (new project)
    scope ← new_cluster client c
    bind (reconcile_with scope.client scope.cluster) close

  reconcile_owned : ScalewayCluster → Option OwnerCluster → Io Requeue
  unfolding reconcile_scoped
  reconcile_owned c none = pure (after 2)
  reconcile_owned c (some owner) =
      if sdk.is_paused owner c.meta then pure done else reconcile_scoped c

  -- From the object that was read on.
  unfoldable pub reconcile_object : ScalewayCluster → Io Requeue
  unfolding reconcile_owned
  reconcile_object c = do
    owner ←
        wrapping (ask (kube_api (get_owner_cluster c.meta))) (wrapped "failed to get owner cluster")
    reconcile_owned c owner

  -- An error of the read that is not "not found" is dropped.
  abbrev read_error : Bool → Io Requeue
  read_error true = pure done
  read_error false = reconcile_object zero_cluster

  abbrev after_read : Result ScalewayCluster → Io Requeue
  after_read (ok c) = reconcile_object c
  after_read (err e) = read_error (is_not_found e)
  after_read panicked = ret panicked

  -- `Reconcile`
  unfoldable pub reconcile : String → String → Io Requeue
  reconcile namespace name = bind (ask (kube_api (get_scaleway_cluster namespace name))) after_read
