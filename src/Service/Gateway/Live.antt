-- ===== src/Service/Gateway/Live.antt =====
-- When `Reconcile` of internal/service/scaleway/vpcgw/vpcgw.go succeeds.
use cluster_api_provider_sca.Prelude.{◌≡◌, String, Option, arith, some, none, List, [], ◌∷◌, ◌==◌}
use cluster_api_provider_sca.Result.{Result, wrapped}
use cluster_api_provider_sca.Prog.{Handler, ask, pure, lift, wrapping, or_nil, ◌>>=◌}
use cluster_api_provider_sca.Prog.Laws.{result-bind}
use cluster_api_provider_sca.Prog.Runs.{Runs, Runs-bind, Meets, NoError, Any, IsWilling}
use cluster_api_provider_sca.Cloud.{network_api}
use cluster_api_provider_sca.Cloud.Network.{
  Gateway, list_gateway_ips_by_tags, list_gateways_by_name,
}
use cluster_api_provider_sca.Api.Cluster.{ScalewayCluster, PublicGatewaySpec}
use cluster_api_provider_sca.Scope.Cluster.{
  Scope, has_private_network, has_public_gateway, public_gateway_zone, name, tags,
  public_gateway_of,
}
use cluster_api_provider_sca.Client.{first_item}
use cluster_api_provider_sca.Client.Found.{wrapping_answered, search_answered}
use cluster_api_provider_sca.Client.Network.{find_gateway_by_name, find_gateway_ip_by_tags}
use cluster_api_provider_sca.Service.Vpc.Live.{IsIdentified}
use cluster_api_provider_sca.Service.Gateway.{
  get_or_create_ip, create_ip_if_nil, create_gateway_if_nil, get_or_create_gateway, gateway_id,
  attach_if_absent, reconcile,
}

abbrev pub AtMostOne {ℓ} : {A : Type ℓ} → List A → Type 0
AtMostOne [] = Unit {0}
AtMostOne (x ∷ []) = Unit {0}
AtMostOne _ = ⊥

-- The API answers every call, and no two addresses have the tags of one cluster.
pub record IsServing {S : Type 0} (h : Handler S) : Type 0 where
  pub answers : IsWilling h
  pub one :
      (zone : String) (tags : List String) (project : String) (s : S)
      → Meets NoError AtMostOne (h (network_api (list_gateway_ips_by_tags zone tags project)) s).0

-- The cluster gives no address for its gateway.
abbrev pub HasNoAddress : ScalewayCluster → Type 0
HasNoAddress c = (g : PublicGatewaySpec) → public_gateway_of c ≡ some g → g.ip ≡ none

module _ {S : Type 0} (h : Handler S) (serving : IsServing h) (c : Scope) where
  ip-Runs : (zone : String) → Runs h NoError Any (get_or_create_ip c zone none)
  unfolding get_or_create_ip create_ip_if_nil find_gateway_ip_by_tags
  ip-Runs zone s =
      let answers = serving.answers in
      let one = serving.one zone (tags c.cluster) c.client.project_id s in
      grind (arith, answers, one)

  create-Runs :
      (zone : String) (spec : PublicGatewaySpec)
      → public_gateway_of c.cluster ≡ some spec
      → spec.ip ≡ none
      → Runs h NoError Any (create_gateway_if_nil c zone none)
  unfolding create_gateway_if_nil
  create-Runs zone spec given free s =
      let first = ip-Runs zone s in
      let answers = serving.answers in
      let whole = result-bind {B = Result Gateway} h (get_or_create_ip c zone none) in
      rw given (rw free (grind (arith, answers, first, whole)))

  chosen-Runs :
      (zone : String) (spec : PublicGatewaySpec)
      → public_gateway_of c.cluster ≡ some spec
      → spec.ip ≡ none
      → (found : Option Gateway) → Runs h NoError Any (create_gateway_if_nil c zone found)
  unfolding create_gateway_if_nil
  chosen-Runs zone spec given free none = create-Runs zone spec given free
  chosen-Runs zone spec given free (some gateway) = λ s. tt

  get-Runs :
      (zone : String) (spec : PublicGatewaySpec)
      → public_gateway_of c.cluster ≡ some spec
      → spec.ip ≡ none
      → Runs h NoError Any (get_or_create_gateway c zone)
  unfolding get_or_create_gateway find_gateway_by_name
  get-Runs zone spec given free =
      let listing =
        wrapping
          (ask (network_api (list_gateways_by_name zone (name c.cluster) c.client.project_id)))
          (wrapped "failed to list Public Gateways") in
      let named = λ (gateway : Gateway). gateway.name == name c.cluster in
      let search = or_nil (listing >>= λ gateways. lift (first_item named gateways)) in
      Runs-bind h NoError Any Any
        (wrapping search (wrapped "failed to find Public Gateway by name"))
        (create_gateway_if_nil c zone)
        (wrapping_answered h Any "failed to find Public Gateway by name" search (
          search_answered h listing named (
            wrapping_answered h Any "failed to list Public Gateways"
              (ask (network_api (list_gateways_by_name zone (name c.cluster) c.client.project_id)))
              (serving.answers _))))
        (λ found _. chosen-Runs zone spec given free found)

  id-Runs :
      (zone : String) (spec : PublicGatewaySpec)
      → public_gateway_of c.cluster ≡ some spec
      → spec.ip ≡ none
      → (id : Option String) → Runs h NoError Any (gateway_id c zone id)
  id-Runs zone spec given free none =
      Runs-bind h NoError Any Any (get_or_create_gateway c zone) (λ gateway. pure gateway.id)
        (get-Runs zone spec given free) (λ gateway _ s. tt)
  id-Runs zone spec given free (some id) = λ s. tt

  -- A reconciliation succeeds where the identifier of the Private Network is stored and the cluster
  -- gives no address for its gateway.
  pub gateway-Succeeds :
      IsIdentified c.cluster → HasNoAddress c.cluster → Runs h NoError Any (reconcile c)
  unfolding reconcile has_private_network has_public_gateway attach_if_absent
  gateway-Succeeds stored free s =
      let answers = serving.answers in
      let gateway = λ (spec : PublicGatewaySpec) (given : public_gateway_of c.cluster ≡ some spec).
        id-Runs (public_gateway_zone c.cluster) spec given (free spec given) spec.id s in
      let whole = λ (spec : PublicGatewaySpec).
        result-bind {B = Result (Unit {0})} h
          (gateway_id c (public_gateway_zone c.cluster) spec.id) in
      grind (arith, answers, stored, gateway, whole)
