-- ===== src/Controller/Cluster/Serving.antt =====
-- What `reconcileNormal` of internal/controller/scalewaycluster_controller.go needs to reach its
-- end.
use cluster_api_provider_sca.Prelude.{◌≡◌, false, none, some, All, List, []}
use cluster_api_provider_sca.Result.{Error, Result, ok, err, panicked}
use cluster_api_provider_sca.Sdk.{Sdk}
use cluster_api_provider_sca.Prog.{Prog, Io, ret, Handler, result, final}
use cluster_api_provider_sca.Prog.Laws.{result-bind}
use cluster_api_provider_sca.Prog.Runs.{NoError, Any, Meets, Runs}
use cluster_api_provider_sca.Client.{Client}
use cluster_api_provider_sca.Api.Cluster.{ScalewayCluster}
use cluster_api_provider_sca.Api.Group.{SecurityGroup}
use cluster_api_provider_sca.Scope.Cluster.{should_manage_private_network}
use cluster_api_provider_sca.Webhook.Field.{admitted}
use cluster_api_provider_sca.Webhook.Network.{
  passes, validate_groups, validate_gateway, validate_network_spec,
}
use cluster_api_provider_sca.Webhook.Network.Laws.{then_check-passes}
use cluster_api_provider_sca.Webhook.Network.Rules.{Succeeds, IsSoundGroup, validate_groups-passes}
use cluster_api_provider_sca.Webhook.Cluster.{validate_create}
use cluster_api_provider_sca.Webhook.Cluster.Laws.{validate_create-admitted}
use cluster_api_provider_sca.Service.Vpc.Live as Networks
use cluster_api_provider_sca.Service.Vpc.Live.{IsIdentified, HasSubnet, vpc-Succeeds}
use cluster_api_provider_sca.Service.Gateway.Live as Gateways
use cluster_api_provider_sca.Service.Gateway.Live.{HasNoAddress, gateway-Succeeds}
use cluster_api_provider_sca.Service.Balancer.Members.{given_ip}
use cluster_api_provider_sca.Service.Balancer.Reconcile.Live as Balancers
use cluster_api_provider_sca.Service.Balancer.Reconcile.Live.{balancer-Succeeds}
use cluster_api_provider_sca.Service.Group.Ensure as Group
use cluster_api_provider_sca.Controller.Cluster.{Requeue, Outcome, keep, after_step}

-- The APIs answer every call; the networks have DHCP, no two addresses have the tags of one
-- cluster, and the Load Balancers have an IPv4 address once they are ready.
pub record IsServing {S : Type 0} (h : Handler S) (sdk : Sdk) : Type 0 where
  pub networks : Networks.IsServing h
  pub gateways : Gateways.IsServing h
  pub balancers : Balancers.IsServing h sdk
  pub any_address : Succeeds (sdk.parse_cidr "0.0.0.0/0")

-- What is asked of a cluster beside its admission: a subnet that is one, an identifier in the
-- status for a network that the user gave, and no addresses that the user gave.
pub record IsPlainCluster (sdk : Sdk) (client : Client) (c : ScalewayCluster) : Type 0 where
  pub subnet : HasSubnet sdk c
  pub identified : should_manage_private_network c ≡ false → IsIdentified c
  pub no_gateway_address : HasNoAddress c
  pub no_balancer_address : given_ip (record { client = client; cluster = c }) ≡ none

pub sound_groups :
    (sdk : Sdk) (client : Client) (c : ScalewayCluster)
    → validate_create sdk c ≡ ok admitted
    → All (IsSoundGroup sdk) (Group.groups_of_spec sdk (record { client = client; cluster = c }))
unfolding validate_network_spec
sound_groups sdk client c given =
    let (region, _, _, _, network) = (validate_create-admitted sdk c).0 given in
    elim c.spec.network
        as (λ n.
          validate_network_spec sdk region n ≡ passes
          → All (IsSoundGroup sdk)
              (elim n as (λ _. List SecurityGroup) [ none ↦ [] | some n ↦ n.security_groups ])) [
                | none ↦ λ _. tt
                | some n ↦ λ passed.
                    let groups =
                      ((then_check-passes (validate_gateway sdk region n)
                          (validate_groups sdk 0 n.security_groups [])).0
                        passed).1 in
                    ((validate_groups-passes sdk 0 n.security_groups []).0 groups).1
              ]
      network

module _ {ℓ} {S : Type 0} {A : Type ℓ} (h : Handler S) (m : Io A) (c : ScalewayCluster)
    (f : A → Prog Outcome) (Q : Outcome → Type 0) where
  pub keep_succeeds :
      Runs h NoError Any m
      → ((a : A) (t : S) → Q (result h (f a) t))
      → (s : S) → Q (result h (keep m c f) s)
  keep_succeeds first rest s = rw (result-bind h m _ s) (go (result h m s) (first s))
    where
      go :
          (r : Result A)
          → Meets NoError Any r
          → Q (
              result h
                (elim r as (λ _. Prog Outcome) [
                  | ok a ↦ f a
                  | err e ↦ ret (err e, c)
                  | panicked ↦ ret (panicked, c)
                ])
                (final h m s))
      go (ok a) fine = rest a _
      go (err e) fine = absurd fine
      go panicked fine = absurd fine

module _ {S : Type 0} (h : Handler S) (m : Prog (Result (Unit {0}) × ScalewayCluster))
    (handle : Error → Result Requeue) (f : ScalewayCluster → Prog Outcome) (E : Error → Type 0)
    (P : ScalewayCluster → Type 0) (Q : Outcome → Type 0) where
  pub step_succeeds :
      (s : S)
      → Meets E (λ _. P (result h m s).1) (result h m s).0
      → ((t : S) → P (result h m s).1 → Q (result h (f (result h m s).1) t))
      → ((e : Error) → E e → Q (handle e, (result h m s).1))
      → Q (result h (after_step m handle f) s)
  step_succeeds s first rest bad = rw (result-bind h m _ s) (go (result h m s) first rest bad)
    where
      go :
          (p : Result (Unit {0}) × ScalewayCluster)
          → Meets E (λ _. P p.1) p.0
          → ((t : S) → P p.1 → Q (result h (f p.1) t))
          → ((e : Error) → E e → Q (handle e, p.1))
          → Q (
              result h
                (elim p.0 as (λ _. Prog Outcome) [
                  | ok u ↦ f p.1
                  | err e ↦ ret (handle e, p.1)
                  | panicked ↦ ret (panicked, p.1)
                ])
                (final h m s))
      go (ok u, c) fine later bad = later _ fine
      go (err e, c) fine later bad = bad e fine
      go (panicked, c) fine later bad = absurd fine
