-- ===== src/Service/Gateway/Laws.antt =====
-- A gateway or an address that the user gave, and the deletion of those of the cluster.
use cluster_api_provider_sca.Prelude.{
  ◌≡◌, ℕ, zero, suc, String, true, none, some, List, [], ◌∷◌, arith,
}
use cluster_api_provider_sca.Result.{Result, ok, err, panicked}
use cluster_api_provider_sca.Cloud.{Request, network_api}
use cluster_api_provider_sca.Cloud.Network.{
  Gateway, delete_gateway, list_gateway_networks, create_gateway_network,
}
use cluster_api_provider_sca.Prog.{Handler, result, requests, changes}
use cluster_api_provider_sca.Client.Network.{find_gateway_by_name}
use cluster_api_provider_sca.Api.Cluster.{PublicGatewaySpec}
use cluster_api_provider_sca.Scope.Cluster.{
  Scope, name, public_gateway_of, public_gateway_zone, has_private_network, has_public_gateway,
  private_network_id,
}
use cluster_api_provider_sca.Service.Gateway.{
  attach_if_absent, delete_gateway_if_found, release_ip, delete_own, reconcile, delete,
}

-- What attaches a gateway that is not attached yet.
abbrev pub attachment : String → String → String → ℕ → List Request
attachment zone id pn_id (suc n) = []
attachment zone id pn_id zero =
    network_api (
      create_gateway_network (record {
        zone = zone;
        gateway = id;
        private_network = pn_id;
        enable_dhcp = true;
        enable_masquerade = true;
        push_default_route = true;
      }))
    ∷ []

module _ {S : Type 0} (h : Handler S) (c : Scope) (s : S) {g : PublicGatewaySpec}
    (given : public_gateway_of c.cluster ≡ some g) where
  -- Where both the Private Network and the Public Gateway are enabled and the identifier of the
  -- network is stored, a gateway that the user gave by its identifier is only attached to the
  -- network, and only if the listing shows no attachment yet. Nothing else is changed.
  pub reconcile-given :
      {id pn_id : String} {total : ℕ}
      → g.id ≡ some id
      → has_private_network c.cluster ≡ true
      → has_public_gateway c.cluster ≡ true
      → private_network_id c.cluster ≡ ok pn_id
      → (h (network_api (list_gateway_networks (public_gateway_zone c.cluster) id pn_id)) s).0
        ≡ ok total
      → changes h (reconcile c) s ≡ attachment (public_gateway_zone c.cluster) id pn_id total
  unfolding reconcile attach_if_absent
  reconcile-given {id} {pn_id} {total} identified network gateway stored listed = ground arith

  -- A gateway that the user gave by its identifier is never deleted: a deletion asks for nothing at
  -- all.
  pub delete-given : {id : String} → g.id ≡ some id → requests h (delete c) s ≡ []
  unfolding delete
  delete-given identified = ground arith

  -- Where both the Private Network and the Public Gateway are enabled, of a gateway of the cluster's
  -- own with an address that the user gave, a deletion deletes at most the gateway that was found
  -- under the name of the cluster, and not the address.
  pub delete-addressed :
      {ip : String} {found : Result Gateway}
      → g.id ≡ none
      → g.ip ≡ some ip
      → has_private_network c.cluster ≡ true
      → has_public_gateway c.cluster ≡ true
      → result h (find_gateway_by_name c.client (public_gateway_zone c.cluster) (name c.cluster)) s
        ≡ found
      → changes h (delete c) s ≡ (elim found as (λ _. List Request) [
        | ok gateway ↦ network_api (delete_gateway (public_gateway_zone c.cluster) gateway.id) ∷ []
        | err e ↦ []
        | panicked ↦ []
      ])
  unfolding delete delete_own delete_gateway_if_found release_ip find_gateway_by_name
  delete-addressed unidentified addressed network gateway same = ground arith
