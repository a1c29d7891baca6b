-- ===== src/Controller/Cluster/Ends.antt =====
-- The steps of `reconcileNormal` of internal/controller/scalewaycluster_controller.go to its end, or
-- to the wait for the Load Balancer.
use cluster_api_provider_sca.Prelude.{
  ◌≡◌, ◌⊎◌, refl, ap, sym, ◌∙◌, Bool, true, false, Bool-cases, inl, inr, none, some, All, List, [],
  arith,
}
use cluster_api_provider_sca.Result.{Error, ok, err, wrapped, wrap, is_load_balancer_not_ready}
use cluster_api_provider_sca.Sdk.{Sdk}
use cluster_api_provider_sca.Prog.{ret, wrapping, Handler, result}
use cluster_api_provider_sca.Prog.Runs.{NoError, Any, Meets, Runs}
use cluster_api_provider_sca.Client.{Client}
use cluster_api_provider_sca.Client.Found.{wrapping_answered}
use cluster_api_provider_sca.Api.Cluster.{
  ScalewayCluster, ScalewayClusterSpec, ObjectMeta, cluster_finalizer,
}
use cluster_api_provider_sca.Api.Group.{SecurityGroup}
use cluster_api_provider_sca.Scope.Cluster.{
  Scope, and_then, patch_object, has_private_network, should_manage_private_network,
  private_network_id,
}
use cluster_api_provider_sca.Webhook.Field.{admitted}
use cluster_api_provider_sca.Webhook.Network.Rules.{IsSoundGroup}
use cluster_api_provider_sca.Webhook.Cluster.{validate_create}
use cluster_api_provider_sca.Service.Vpc
use cluster_api_provider_sca.Service.Vpc.Live.{IsIdentified, vpc-Succeeds}
use cluster_api_provider_sca.Service.Gateway
use cluster_api_provider_sca.Service.Gateway.Live.{HasNoAddress, gateway-Succeeds}
use cluster_api_provider_sca.Service.Balancer.Members.{given_ip}
use cluster_api_provider_sca.Service.Balancer.Reconcile as Balancer
use cluster_api_provider_sca.Service.Balancer.Reconcile.Live.{Awaits}
use cluster_api_provider_sca.Service.Group.Ensure as Group
use cluster_api_provider_sca.Service.Group.Ensure.Live.{groups-Succeeds}
use cluster_api_provider_sca.Controller.Cluster.Ready.{vpc-Alike}
use cluster_api_provider_sca.Controller.Cluster.Frame.{HasSpec, vpc-HasSpec, with_finalizer-HasSpec}
use cluster_api_provider_sca.Controller.Finalizers.{has_finalizer}
use cluster_api_provider_sca.Controller.Cluster.{
  done, after, Outcome, not_ready_error, with_domains, with_finalizer, with_ready, patch_finalizer,
  balancer_step, after_network, network_step, reconcile_services, reconcile_normal,
}
use cluster_api_provider_sca.Controller.Cluster.Serving.{
  IsServing, IsPlainCluster, sound_groups, keep_succeeds, step_succeeds,
}

-- The cluster gives no address for its Load Balancer.
abbrev IsFree : Client → ScalewayCluster → Type 0
IsFree client c = given_ip (record { client = client; cluster = c }) ≡ none

-- What an object and one that has its specification and its name share.
abbrev pub IsStable : (ScalewayCluster → Type 0) → Type 0
IsStable K = (c c' : ScalewayCluster) → HasSpec c c' → c'.meta.name ≡ c.meta.name → K c → K c'

-- The Load Balancer is reconciled where `K` holds of the cluster, or it is awaited and `W` holds.
abbrev pub Balances :
    {S : Type 0} → Handler S → Sdk → Client → (ScalewayCluster → Type 0) → Type 0 → Type 0
Balances h sdk client K W =
    (c : ScalewayCluster) (s : _)
    → IsIdentified c
    → IsFree client c
    → K c
    → Meets (Awaits W) Any
        (result h (Balancer.reconcile sdk (record { client = client; cluster = c })) s).0

module _ {S : Type 0} (h : Handler S) (sdk : Sdk) (serving : IsServing h sdk) (client : Client)
    (K : ScalewayCluster → Type 0) (stable : IsStable K) (W : Type 0)
    (balances : Balances h sdk client K W) where
  -- The end of a reconciliation, or the wait for the Load Balancer.
  abbrev Ends : Outcome → Type 0
  Ends o = (o.0 ≡ ok done) ⊎ ((o.0 ≡ ok (after 2)) × W)

  awaited :
      (b : Bool) (e : Error) (c : ScalewayCluster) → b ≡ true → W → Ends (not_ready_error b e, c)
  awaited true e c waits w = inr (refl, w)
  awaited false e c waits w = absurd (cc)

  balancer_step-Ends :
      (c : ScalewayCluster)
      → IsIdentified c
      → IsFree client c
      → K c
      → (s : S) → Ends (result h (balancer_step sdk client c) s)
  unfolding balancer_step
  balancer_step-Ends c stored free known s =
      let m = Balancer.reconcile sdk (record { client = client; cluster = c }) in
      step_succeeds h m _ (λ c'. ret (ok done, with_ready sdk client c')) (Awaits W) (λ _. Unit {0})
        Ends s (balances c s stored free known) (λ t fine. inl refl)
        (λ e waits. awaited (is_load_balancer_not_ready e) e (result h m s).1 waits.0 waits.1)

  after_network-Ends :
      (c : ScalewayCluster)
      → IsIdentified c
      → IsFree client c
      → HasNoAddress c
      → K c
      → (s : S) → Ends (result h (after_network sdk client c) s)
  unfolding after_network
  after_network-Ends c stored free unaddressed known =
      let gateway = Gateway.reconcile (record { client = client; cluster = c }) in
      keep_succeeds h (wrapping gateway (wrapped "failed to reconcile vpcgw")) c
        (λ _. balancer_step sdk client c) Ends
        (wrapping_answered h Any "failed to reconcile vpcgw" gateway (
          gateway-Succeeds h serving.gateways (record { client = client; cluster = c }) stored
            unaddressed))
        (λ _ t. balancer_step-Ends c stored free known t)

  network_step-Ends :
      (c : ScalewayCluster)
      → IsPlainCluster sdk client c
      → K c
      → (s : S) → Ends (result h (network_step sdk client c) s)
  unfolding network_step
  network_step-Ends c plain known s =
      let scope : Scope = record { client = client; cluster = c } in
      let m = Vpc.reconcile sdk scope in
      let same = vpc-HasSpec h sdk client scope s in
      let alike = vpc-Alike h sdk scope s in
      step_succeeds h m (λ e. err (wrap "failed to reconcile vpc" e)) (after_network sdk client)
        NoError IsIdentified Ends s
        (vpc-Succeeds h serving.networks sdk scope plain.subnet plain.identified s)
        (λ t stored.
          after_network-Ends (result h m s).1 stored
            (ap
                (λ (spec : ScalewayClusterSpec).
                  and_then spec.control_plane_load_balancer (λ b. b.ip))
                same
              ∙ plain.no_balancer_address)
            (λ g given. plain.no_gateway_address g (
              sym (
                ap (λ (spec : ScalewayClusterSpec). and_then spec.network (λ n. n.public_gateway))
                  same)
              ∙ given))
            (stable c (result h m s).1 same (ap (λ (o : ObjectMeta). o.name) alike.0) known) t)
        (λ e failed. absurd failed)

  services-Ends :
      (c : ScalewayCluster)
      → IsPlainCluster sdk client c
      → All (IsSoundGroup sdk) (Group.groups_of_spec sdk (record { client = client; cluster = c }))
      → K c
      → (s : S) → Ends (result h (reconcile_services sdk client c) s)
  unfolding reconcile_services
  services-Ends c plain sound known =
      let scope : Scope = record { client = client; cluster = c } in
      keep_succeeds h (Group.reconcile sdk scope) c (λ _. network_step sdk client c) Ends
        (groups-Succeeds h serving.gateways.answers sdk serving.any_address scope sound)
        (λ _ t. network_step-Ends c plain known t)

  -- The object with its finalizer and its failure domains.
  abbrev prepared : ScalewayCluster → ScalewayCluster
  prepared c = with_domains sdk client (with_finalizer sdk client c)

  prepared-IsPlainCluster :
      (c : ScalewayCluster) → IsPlainCluster sdk client c → IsPlainCluster sdk client (prepared c)
  unfolding should_manage_private_network has_private_network private_network_id
  prepared-IsPlainCluster c plain = elim (Bool-cases (has_finalizer cluster_finalizer c.meta)) [
    | inl has ↦ rw has (record {
      subnet = plain.subnet;
      identified = plain.identified;
      no_gateway_address = plain.no_gateway_address;
      no_balancer_address = plain.no_balancer_address;
    })
    | inr not_yet ↦ rw not_yet (record {
      subnet = plain.subnet;
      identified = plain.identified;
      no_gateway_address = plain.no_gateway_address;
      no_balancer_address = plain.no_balancer_address;
    })
  ]

  prepared-spec : (c : ScalewayCluster) → (prepared c).spec ≡ c.spec
  prepared-spec c = elim (Bool-cases (has_finalizer cluster_finalizer c.meta)) [
    | inl has ↦ rw has refl
    | inr not_yet ↦ rw not_yet refl
  ]

  patch-Runs : (c : ScalewayCluster) → Runs h NoError Any (patch_finalizer sdk client c)
  unfolding patch_finalizer patch_object
  patch-Runs c s = let answers = serving.gateways.answers in grind (arith, answers)

  prepared_name : (c : ScalewayCluster) → (prepared c).meta.name ≡ c.meta.name
  prepared_name c = elim (Bool-cases (has_finalizer cluster_finalizer c.meta)) [
    | inl has ↦ rw has refl
    | inr not_yet ↦ rw not_yet refl
  ]

  pub normal-Ends :
      (c : ScalewayCluster)
      → IsPlainCluster sdk client c
      → validate_create sdk c ≡ ok admitted
      → K c
      → (s : S) → Ends (result h (reconcile_normal sdk client c) s)
  unfolding reconcile_normal
  normal-Ends c plain given known =
      let groups =
        ap
          (λ (spec : ScalewayClusterSpec). elim spec.network as (λ _. List SecurityGroup) [
            | none ↦ []
            | some n ↦ n.security_groups
          ])
          (prepared-spec c) in
      let known' =
        stable c (prepared c) (with_finalizer-HasSpec sdk client c) (prepared_name c) known in
      keep_succeeds h (patch_finalizer sdk client c) (with_finalizer sdk client c)
        (λ _. reconcile_services sdk client (prepared c)) Ends (patch-Runs c)
        (λ _ t.
          services-Ends (prepared c) (prepared-IsPlainCluster c plain)
            (rw groups (sound_groups sdk client c given)) known' t)
