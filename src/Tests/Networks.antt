-- ===== src/Tests/Networks.antt =====
-- Runs of the services of the Private Network and of the Public Gateway.
use cluster_api_provider_sca.Prelude.{◌≡◌, refl, true, none, some, List, [], ◌∷◌}
use cluster_api_provider_sca.Result.{ok}
use cluster_api_provider_sca.Cloud.{network_api}
use cluster_api_provider_sca.Cloud.Network.{
  PrivateNetwork, list_private_networks, create_private_network, list_gateway_networks,
  list_gateways_by_name, delete_gateway,
}
use cluster_api_provider_sca.Prog.{Handler, result, final, changes}
use cluster_api_provider_sca.Api.Cluster.{PublicGatewaySpec}
use cluster_api_provider_sca.Scope.Cluster.{
  Scope, name, region, should_manage_private_network, has_private_network,
  set_status_private_network_id,
}
use cluster_api_provider_sca.Client.Network.{find_private_network_by_name}
use cluster_api_provider_sca.Service.Vpc
use cluster_api_provider_sca.Service.Vpc.Laws.{IsLawful, reconcile_converges}
use cluster_api_provider_sca.Tests.Fixtures.{silent, libraries, cluster_with, client, scope}

-- A VPC API that holds the networks that were created, the newest first.
abbrev vpc : Handler (List PrivateNetwork)
vpc (network_api (list_private_networks region name project)) pns = (ok pns, pns)
vpc (network_api (create_private_network region name subnets)) pns =
    let pn : PrivateNetwork = record { id = "pn"; name = name; dhcp_enabled = true } in
    (ok pn, pn ∷ pns)
vpc q pns = (silent q, pns)

vpc-IsLawful : IsLawful vpc scope
unfolding name region
vpc-IsLawful = record { list_keeps = λ s. refl; create_listed = λ subnets s pn made. cc }

abbrev created : PrivateNetwork
created = record { id = "pn"; name = "caps-test"; dhcp_enabled = true }

reconcile_converges_example :
    let t = final vpc (Vpc.reconcile libraries scope) [] in
    let c' = set_status_private_network_id "pn" scope.cluster in
    (changes vpc (Vpc.reconcile libraries (record scope { cluster = c' })) t ≡ [])
    × (result vpc (Vpc.reconcile libraries (record scope { cluster = c' })) t ≡ (ok tt, c'))
unfolding Vpc.reconcile should_manage_private_network has_private_network Vpc.get_or_create_pn
    Vpc.create_pn find_private_network_by_name name region
reconcile_converges_example =
    reconcile_converges vpc libraries scope []
      {c' = set_status_private_network_id "pn" scope.cluster} vpc-IsLawful refl

-- A gateway API with one gateway of the cluster's name and no attachment.
abbrev gateways : Handler (Unit {0})
gateways (network_api (list_gateway_networks zone gateway pn)) s = (ok 0, s)
gateways (network_api (list_gateways_by_name zone name project)) s =
    (ok (record { id = "gw"; name = name; ip = none } ∷ []), s)
gateways (network_api (delete_gateway zone gateway)) s = (ok tt, s)
gateways q s = (silent q, s)

abbrev addressed_spec : PublicGatewaySpec
addressed_spec = record { enabled = true; id = none; type = none; ip = some "1.2.3.4"; zone = none }

abbrev addressed : Scope
addressed = record { client = client; cluster = cluster_with addressed_spec }
