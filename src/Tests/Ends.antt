-- ===== src/Tests/Ends.antt =====
-- Runs of reconciliations of a cluster to their end.
use cluster_api_provider_sca.Prelude.{◌≡◌, ◌≢◌, ◌⊎◌, refl, true, false, none, some, [], ◌∷◌}
use cluster_api_provider_sca.Result.{ok}
use cluster_api_provider_sca.Prog.{Handler, result}
use cluster_api_provider_sca.Prog.Runs.{IsWilling}
use cluster_api_provider_sca.Api.Cluster.{ScalewayCluster, PublicGatewaySpec}
use cluster_api_provider_sca.Scope.Cluster.{
  name, has_private_network, should_manage_private_network,
}
use cluster_api_provider_sca.Webhook.Field.{admitted}
use cluster_api_provider_sca.Webhook.Cluster.{
  validate_create, validate, validate_in, validate_failure_domains, validate_domains,
  validate_load_balancer_spec,
}
use cluster_api_provider_sca.Webhook.Network.{
  validate_network_spec, validate_gateway, check_gateway_id, check_subnet, zone_in_region,
  validate_groups, validate_security_group_policy, validate_rules, validate_rule,
}
use cluster_api_provider_sca.Api.Group.{
  SecurityGroup, to_instance_action, to_instance, to_instance_policy,
}
use cluster_api_provider_sca.Api.Ports.{to_range}
use cluster_api_provider_sca.Service.Balancer.Reconcile.{first_ipv4}
use cluster_api_provider_sca.Controller.Cluster as Clusters
use cluster_api_provider_sca.Controller.Cluster.{done, after}
use cluster_api_provider_sca.Controller.Cluster.Live.{
  reconcile_normal-done, reconcile_normal-awaits,
}
use cluster_api_provider_sca.Controller.Cluster.Reused.{
  IsUnstored, reconcile_normal-unstored_network,
}
use cluster_api_provider_sca.Service.Balancer.Reconcile.Live.{IsShown}
use cluster_api_provider_sca.Cloud.{balancer_api}
use cluster_api_provider_sca.Cloud.Balancer.{LoadBalancer, ready, list_balancers}
use cluster_api_provider_sca.Controller.Cluster.Serving.{IsServing, IsPlainCluster}
use cluster_api_provider_sca.Tests.Fixtures.{libraries, client, cluster_with, network_with}
use cluster_api_provider_sca.Tests.Serving.{serving}

abbrev own_gateway : PublicGatewaySpec
own_gateway = record { enabled = true; id = none; type = none; ip = none; zone = none }

abbrev web : SecurityGroup
web = record {
  name = "web";
  inbound = some (record {
    default = some "Drop";
    rules =
        record { action = "Accept"; protocol = some "TCP"; ports = some "80-443"; ip_range = none }
        ∷ [];
  });
  outbound = none;
}

abbrev pub fresh : ScalewayCluster
fresh = record (cluster_with own_gateway) {
  spec = record (cluster_with own_gateway).spec {
    network = some (record (network_with own_gateway) { security_groups = web ∷ [] });
  };
  status = record { ready = false; failure_domains = []; network = none };
}

serving-IsServing : IsServing serving libraries
serving-IsServing = record {
  networks = record {
    listed = λ region name project s. tt;
    created = λ region name subnets s. refl;
  };
  gateways = record { answers = λ q s. tt; one = λ zone tags project s. tt };
  balancers = record {
    answers = λ q s. tt;
    listed = λ zone name s. tt;
    created = λ request s is_ready. absurd (cc);
  };
  any_address = tt;
}

-- The Load Balancer of the cluster, once it is there.
abbrev balancer : LoadBalancer
balancer = record {
  id = "lb";
  name = "caps-test";
  zone = "fr-par-1";
  status = ready;
  ips = "10.0.0.1" ∷ [];
}

abbrev settled : Handler (Unit {0})
settled (balancer_api (list_balancers zone name)) s = (ok (balancer ∷ []), s)
settled q s = serving q s

settled-IsWilling : IsWilling settled
settled-IsWilling (balancer_api (list_balancers zone name)) s = tt
settled-IsWilling q s = tt

settled-IsServing : IsServing settled libraries
unfolding first_ipv4
settled-IsServing = record {
  networks = record {
    listed = λ region name project s. tt;
    created = λ region name subnets s. refl;
  };
  gateways = record { answers = settled-IsWilling; one = λ zone tags project s. tt };
  balancers = record {
    answers = settled-IsWilling;
    listed = λ zone name s. (λ is_ready. tt, tt);
    created = λ request s is_ready. absurd (cc);
  };
  any_address = tt;
}

fresh-IsShown : IsShown settled libraries fresh
unfolding first_ipv4 name
fresh-IsShown s = (refl, tt)

fresh-IsPlainCluster : IsPlainCluster libraries client fresh
unfolding should_manage_private_network has_private_network
fresh-IsPlainCluster = record {
  subnet = λ n subnet given wanted. tt;
  identified = λ unmanaged. absurd (cc);
  no_gateway_address = λ g given. cc;
  no_balancer_address = refl;
}

pub fresh-admitted : validate_create libraries fresh ≡ ok admitted
unfolding validate_create validate validate_in validate_failure_domains validate_domains
    validate_load_balancer_spec validate_network_spec validate_gateway check_gateway_id check_subnet
    zone_in_region validate_groups validate_security_group_policy validate_rules validate_rule
    to_instance_action to_instance to_instance_policy to_range
fresh-admitted = refl

reconcile_normal-done_example :
    let o = result settled (Clusters.reconcile_normal libraries client fresh) tt in
    (o.0 ≡ ok done) × (o.1.status.ready ≡ true)
reconcile_normal-done_example =
    reconcile_normal-done settled libraries settled-IsServing client fresh tt fresh-IsPlainCluster
      fresh-admitted fresh-IsShown

reconcile_normal-awaits_example :
    let o = result serving (Clusters.reconcile_normal libraries client fresh) tt in
    (o.0 ≡ ok done) ⊎ (o.0 ≡ ok (after 2))
reconcile_normal-awaits_example =
    reconcile_normal-awaits serving libraries serving-IsServing client fresh tt fresh-IsPlainCluster
      fresh-admitted

-- A cluster that reuses a Private Network, and has no network in its status.
abbrev reusing : ScalewayCluster
reusing = record fresh {
  spec = record fresh.spec {
    network = some (record (network_with own_gateway) {
      private_network = some (record { enabled = true; id = some "pn"; subnet = none });
    });
  };
}

reusing-IsUnstored : IsUnstored reusing
unfolding has_private_network should_manage_private_network
reusing-IsUnstored = (refl, refl, refl)

reconcile_normal-unstored_network_example :
    let o = result settled (Clusters.reconcile_normal libraries client reusing) tt in
    (o.0 ≢ ok done) × (o.1.status.ready ≡ false)
reconcile_normal-unstored_network_example =
    reconcile_normal-unstored_network settled libraries client reusing tt reusing-IsUnstored
