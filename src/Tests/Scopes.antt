-- ===== src/Tests/Scopes.antt =====
-- The failure domains of a cluster of one zone.
use cluster_api_provider_sca.Prelude.{◌≡◌, true}
use cluster_api_provider_sca.Scope.Cluster.{contains, zones, region, failure_domains}
use cluster_api_provider_sca.Scope.Cluster.Laws.{failure_domains-contains}
use cluster_api_provider_sca.Tests.Fixtures.{libraries, cluster}

failure_domains-contains_example : contains (failure_domains libraries cluster) "fr-par-1" ≡ true
unfolding zones region
failure_domains-contains_example = failure_domains-contains libraries cluster "fr-par-1"
