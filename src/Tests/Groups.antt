-- ===== src/Tests/Groups.antt =====
-- Runs of the service of the security groups, and of the range of ports.
use cluster_api_provider_sca.Prelude.{
  ◌≡◌, ◌<◌, ◌↔◌, refl, ℕ, true, false, none, some, [], ◌∷◌, All, map, arith, length, ◌≤◌, ◌+◌, ◌*◌,
}
use cluster_api_provider_sca.Result.{ok}
use cluster_api_provider_sca.Cloud.{instance_api}
use cluster_api_provider_sca.Cloud.Instance.{
  InstanceGroup, RequestRule, accept, tcp, inbound, list_groups_by_tags, delete_group,
}
use cluster_api_provider_sca.Prog.{Handler, requests}
use cluster_api_provider_sca.Api.Group.{GroupRule, to_instance, to_instance_action}
use cluster_api_provider_sca.Api.Ports.{to_range}
use cluster_api_provider_sca.Api.Ports.Laws.{to_range_inverted}
use cluster_api_provider_sca.Api.Ports.Print.{print, to_range-print}
use cluster_api_provider_sca.Service.Group.Ensure.Bounds.{shown, requests-ensure_groups}
use cluster_api_provider_sca.Scope.Cluster.{zones, tags}
use cluster_api_provider_sca.Service.Group.Rules.{
  compare_rules, request_rules, to_instance_request_rule,
}
use cluster_api_provider_sca.Service.Group.Rules.Laws.{held, IsCanonical, compare_rules_iff}
use cluster_api_provider_sca.Service.Group.Ensure.{ensure_security_groups}
use cluster_api_provider_sca.Tests.Fixtures.{silent, libraries, scope}

abbrev listed_group : InstanceGroup
listed_group = record {
  id = "group";
  name = "caps-test-group";
  zone = "fr-par-1";
  inbound_default_policy = accept;
  outbound_default_policy = accept;
  enable_default_security = false;
}

abbrev groups_api : Handler (Unit {0})
groups_api (instance_api (list_groups_by_tags zones tags)) s = (ok (listed_group ∷ []), s)
groups_api (instance_api (delete_group zone group)) s = (ok tt, s)
groups_api q s = (silent q, s)

abbrev rule : GroupRule
rule = record {
  action = "Accept";
  protocol = some "TCP";
  ports = none;
  ip_range = some "0.0.0.0/0";
}

abbrev request : RequestRule
request = record {
  action = accept;
  protocol = tcp;
  direction = inbound;
  ip_range = "0.0.0.0/0";
  dest_port_from = none;
  dest_port_to = none;
  position = 1;
}

compare_rules_iff_example :
    (compare_rules (rule ∷ []) (map held (request ∷ [])) ≡ ok true)
    ↔ All (IsCanonical libraries) (rule ∷ [])
unfolding request_rules to_instance_request_rule to_instance to_instance_action to_range
compare_rules_iff_example =
    compare_rules_iff libraries 0 (rule ∷ []) inbound {news = request ∷ []} refl

to_range_inverted_example :
    (from : ℕ) × (to : ℕ) × (to_range (some "80-4294967300") ≡ ok (some from, some to))
    × (to < from)
to_range_inverted_example =
    to_range_inverted "80-4294967300" b'8' (b'0' ∷ []) b'4'
      (b'2' ∷ b'9' ∷ b'4' ∷ b'9' ∷ b'6' ∷ b'7' ∷ b'3' ∷ b'0' ∷ b'0' ∷ []) refl (ground arith)
      (ground arith) (omega arith) (omega arith) (omega arith)

to_range-print_example :
    (to_range (some "80") ≡ ok (some 80, none))
    × (to_range (some "80-443") ≡ ok (some 80, some 443))
unfolding print
to_range-print_example = to_range-print 80 443 "80" "80-443" (omega arith) (omega arith) refl refl

requests-ensure_groups_example :
    length (requests groups_api (ensure_security_groups libraries scope []) tt)
    ≤ 1
      + (length (
            shown
              (groups_api
                (instance_api (
                  list_groups_by_tags
                    (zones libraries scope.cluster libraries.instance_zones)
                    (tags scope.cluster)))
                tt).0)
          + 0 * (3 * length (zones libraries scope.cluster libraries.instance_zones)))
requests-ensure_groups_example = requests-ensure_groups groups_api libraries scope [] tt
