-- ===== src/Tests/Deletions.antt =====
-- A run of a deletion of a cluster that goes to its end, and of the rules of a settled group.
use cluster_api_provider_sca.Prelude.{◌≡◌, refl, false, none, some, [], ◌∷◌, ◌++◌}
use cluster_api_provider_sca.Result.{ok}
use cluster_api_provider_sca.Cloud.{instance_api, balancer_api, network_api}
use cluster_api_provider_sca.Cloud.Instance.{
  InstanceGroup, RequestRule, accept, tcp, inbound, list_groups_by_tags, list_rules,
}
use cluster_api_provider_sca.Cloud.Balancer.{list_balancers}
use cluster_api_provider_sca.Cloud.Network.{list_private_networks}
use cluster_api_provider_sca.Prog.{Handler, result, changes}
use cluster_api_provider_sca.Api.Group.{GroupRule, SecurityGroup, to_instance, to_instance_action}
use cluster_api_provider_sca.Api.Ports.{to_range}
use cluster_api_provider_sca.Scope.Cluster.{
  zones, region, name, tags, load_balancer_zone, has_private_network, has_public_gateway,
  should_manage_private_network,
}
use cluster_api_provider_sca.Client.Balancer.{find_load_balancer_by_name}
use cluster_api_provider_sca.Client.Network.{find_private_network_by_name}
use cluster_api_provider_sca.Service.Vpc
use cluster_api_provider_sca.Service.Gateway
use cluster_api_provider_sca.Service.Balancer.Reconcile as Balancer
use cluster_api_provider_sca.Service.Group.Ensure as Group
use cluster_api_provider_sca.Service.Group.Rules.{request_rules, to_instance_request_rule}
use cluster_api_provider_sca.Service.Group.Rules.Laws.{held}
use cluster_api_provider_sca.Service.Group.Ensure.Settled.{ensure_rules_settled}
use cluster_api_provider_sca.Controller.Cluster.{reconcile_delete, delete_network}
use cluster_api_provider_sca.Controller.Cluster.Order.{reconcile_delete-order}
use cluster_api_provider_sca.Tests.Fixtures.{silent, libraries, client, cluster, scope}

abbrev rule : GroupRule
rule = record {
  action = "Accept";
  protocol = some "TCP";
  ports = none;
  ip_range = some "0.0.0.0/0";
}

abbrev request : RequestRule
request = record {
  action = accept;
  protocol = tcp;
  direction = inbound;
  ip_range = "0.0.0.0/0";
  dest_port_from = none;
  dest_port_to = none;
  position = 1;
}

abbrev wanted : SecurityGroup
wanted = record {
  name = "group";
  inbound = some (record { default = none; rules = rule ∷ [] });
  outbound = none;
}

abbrev listed_group : InstanceGroup
listed_group = record {
  id = "group";
  name = "caps-test-group";
  zone = "fr-par-1";
  inbound_default_policy = accept;
  outbound_default_policy = accept;
  enable_default_security = false;
}

-- An outside with nothing left but the rules of a group.
abbrev cloud : Handler (Unit {0})
cloud (instance_api (list_groups_by_tags _ _)) s = (ok [], s)
cloud (instance_api (list_rules _ _)) s = (ok (held request ∷ []), s)
cloud (balancer_api (list_balancers _ _)) s = (ok [], s)
cloud (network_api (list_private_networks _ _ _)) s = (ok [], s)
cloud q s = (silent q, s)

reconcile_delete-order_example :
    (changes cloud (reconcile_delete libraries client cluster) tt
      ≡ changes cloud (Balancer.delete scope) tt
        ++ (changes cloud (Gateway.delete scope) tt
            ++ (changes cloud (Vpc.delete libraries scope) tt
                ++ changes cloud (Group.delete libraries scope) tt)))
    × (result cloud (Balancer.delete scope) tt ≡ ok tt)
    × (result cloud (Gateway.delete scope) tt ≡ ok tt)
    × (result cloud (Vpc.delete libraries scope) tt ≡ ok tt)
    × (result cloud (Group.delete libraries scope) tt ≡ ok tt)
unfolding reconcile_delete delete_network Balancer.delete Gateway.delete Vpc.delete Group.delete
    Group.ensure_security_groups Group.ensure_each Group.prune_groups zones region name tags
    load_balancer_zone has_private_network has_public_gateway should_manage_private_network
    find_load_balancer_by_name find_private_network_by_name
reconcile_delete-order_example = reconcile_delete-order cloud libraries client cluster tt refl

ensure_rules_settled_example :
    (changes cloud (Group.ensure_rules libraries scope "fr-par-1" wanted listed_group) tt ≡ [])
    × (result cloud (Group.ensure_rules libraries scope "fr-par-1" wanted listed_group) tt ≡ ok tt)
unfolding request_rules to_instance_request_rule to_instance to_instance_action to_range
ensure_rules_settled_example =
    ensure_rules_settled libraries {ins = request ∷ []} {outs = []} wanted refl refl cloud scope
      "fr-par-1" listed_group tt refl (refl, tt) tt
