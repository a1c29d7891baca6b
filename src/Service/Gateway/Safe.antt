-- ===== src/Service/Gateway/Safe.antt =====
-- Panics of internal/service/scaleway/vpcgw/vpcgw.go.
use cluster_api_provider_sca.Prelude.{◌≡◌, Option, arith, some, none, String}
use cluster_api_provider_sca.Prog.{Handler, result}
use cluster_api_provider_sca.Result.{Result}
use cluster_api_provider_sca.Prog.Runs.{Runs, Meets, AnyError, Any, IsCalm}
use cluster_api_provider_sca.Prog.Laws.{result-bind}
use cluster_api_provider_sca.Cloud.Network.{Gateway}
use cluster_api_provider_sca.Api.Cluster.{PublicGatewaySpec}
use cluster_api_provider_sca.Scope.Cluster.{
  Scope, has_private_network, has_public_gateway, public_gateway_zone, name, tags,
  public_gateway_of,
}
use cluster_api_provider_sca.Client.Network.{
  find_gateway_ip, find_gateway_by_name, find_gateway_ip_by_tags,
}
use cluster_api_provider_sca.Service.Vpc.Safe.{IsStored, stored_id}
use cluster_api_provider_sca.Service.Gateway.{
  get_or_create_ip, create_gateway_if_nil, get_or_create_gateway, gateway_id, attach_if_absent,
  reconcile, delete, delete_own, delete_gateway_if_found, release_ip,
}

module _ {S : Type 0} (h : Handler S) (calm : IsCalm h) (c : Scope) where
  ip-Runs : (zone : String) (ip : Option String) → Runs h AnyError Any (get_or_create_ip c zone ip)
  unfolding get_or_create_ip find_gateway_ip find_gateway_ip_by_tags
  ip-Runs zone none s = grind (arith, calm)
  ip-Runs zone (some ip) s = grind (arith, calm)

  create-Runs :
      (zone : String) (spec : PublicGatewaySpec)
      → public_gateway_of c.cluster ≡ some spec
      → Runs h AnyError Any (create_gateway_if_nil c zone none)
  unfolding create_gateway_if_nil
  create-Runs zone spec given s =
      let first = ip-Runs zone spec.ip s in
      let whole = result-bind {B = Result Gateway} h (get_or_create_ip c zone spec.ip) in
      grind (arith, calm, whole, first)

  gateway_get-Runs :
      (zone : String) (spec : PublicGatewaySpec)
      → public_gateway_of c.cluster ≡ some spec
      → Runs h AnyError Any (get_or_create_gateway c zone)
  unfolding get_or_create_gateway find_gateway_by_name
  gateway_get-Runs zone spec given s =
      let rest = create-Runs zone spec given in grind (arith, calm, rest)

  id-Runs :
      (zone : String) (spec : PublicGatewaySpec)
      → public_gateway_of c.cluster ≡ some spec
      → Runs h AnyError Any (gateway_id c zone spec.id)
  id-Runs zone spec given s =
      let whole = result-bind {B = Result String} h (get_or_create_gateway c zone) in
      let first = gateway_get-Runs zone spec given s in
      elim spec.id as (λ id. Meets AnyError Any (result h (gateway_id c zone id) s)) [
        | none ↦ grind (arith, calm, whole, first)
        | some id ↦ tt
      ]

  pub gateway-Runs : IsStored c.cluster → Runs h AnyError Any (reconcile c)
  unfolding reconcile has_private_network has_public_gateway attach_if_absent
  gateway-Runs stored s =
      let id = stored_id c.cluster stored in
      let gateway = λ (spec : PublicGatewaySpec) (given : public_gateway_of c.cluster ≡ some spec).
        id-Runs (public_gateway_zone c.cluster) spec given s in
      let whole = λ (spec : PublicGatewaySpec).
        result-bind {B = Result (Unit {0})} h
          (gateway_id c (public_gateway_zone c.cluster) spec.id) in
      grind (arith, calm, id, gateway, whole)

  pub gateway_delete-Runs : Runs h AnyError Any (delete c)
  unfolding delete delete_own delete_gateway_if_found release_ip has_public_gateway
      has_private_network find_gateway_by_name find_gateway_ip_by_tags public_gateway_zone name tags
  gateway_delete-Runs s = grind (arith, calm)
