-- ===== src/Service/Gateway.antt =====
-- internal/service/scaleway/vpcgw/vpcgw.go: the Public Gateway of a cluster.
pub mod Laws
pub mod Safe
pub mod Live
use cluster_api_provider_sca.Prelude.{
  ℕ, zero, suc, String, Bool, true, false, not, ◌&&◌, ◌||◌, Option, none, some, nat_eq, is_some,
  is_none, if◌then◌else◌,
}
use cluster_api_provider_sca.Result.{Result, ok, wrapped, deref}
use cluster_api_provider_sca.Cloud.{network_api}
use cluster_api_provider_sca.Cloud.Network.{
  Gateway, GatewayIp, create_gateway, delete_gateway, create_gateway_ip, delete_gateway_ip,
  list_gateway_networks, create_gateway_network,
}
use cluster_api_provider_sca.Prog.{Io, ask, pure, lift, wrapping, or_nil, ◌>>=◌, ◌>>◌}
use cluster_api_provider_sca.Client.Network.{
  find_gateway_by_name, find_gateway_ip, find_gateway_ip_by_tags,
}
use cluster_api_provider_sca.Api.Cluster.{PublicGatewaySpec}
use cluster_api_provider_sca.Scope.Cluster.{
  Scope, name, tags, public_gateway_of, public_gateway_zone, has_private_network,
  has_public_gateway, private_network_id,
}

abbrev pub default_vpcgw_type : String
default_vpcgw_type = "VPC-GW-S"

abbrev type_or_default : Option String → String
type_or_default none = default_vpcgw_type
type_or_default (some t) = t

module _ (s : Scope) where
  create_ip_if_nil : String → Option GatewayIp → Io GatewayIp
  create_ip_if_nil zone none = ask (network_api (create_gateway_ip zone (tags s.cluster)))
  create_ip_if_nil zone (some ip) = pure ip

  -- `getOrCreateIP`
  unfoldable pub get_or_create_ip : String → Option String → Io GatewayIp
  unfolding create_ip_if_nil
  get_or_create_ip zone (some ip) =
      wrapping (find_gateway_ip s.client zone ip) (wrapped "failed to find IP")
  get_or_create_ip zone none = do
    found ← or_nil (find_gateway_ip_by_tags s.client zone (tags s.cluster))
    create_ip_if_nil zone found

  create_gateway_if_nil : String → Option Gateway → Io Gateway
  create_gateway_if_nil zone (some gateway) = pure gateway
  create_gateway_if_nil zone none = do
    spec ← lift (deref (public_gateway_of s.cluster))
    ip ← get_or_create_ip zone spec.ip
    wrapping
        (ask (
          network_api (
            create_gateway (record {
              zone = zone;
              name = name s.cluster;
              ip_id = ip.id;
              type = type_or_default spec.type;
            }))))
        (wrapped "failed to create Public Gateway")

  -- `getOrCreateGateway`
  unfoldable pub get_or_create_gateway : String → Io Gateway
  unfolding create_gateway_if_nil
  get_or_create_gateway zone = do
    found ←
        wrapping (or_nil (find_gateway_by_name s.client zone (name s.cluster)))
          (wrapped "failed to find Public Gateway by name")
    create_gateway_if_nil zone found

  abbrev gateway_id : String → Option String → Io String
  gateway_id zone (some id) = pure id
  gateway_id zone none = do gateway ← get_or_create_gateway zone; pure gateway.id

  unfoldable attach_if_absent : String → String → String → ℕ → Io (Unit {0})
  attach_if_absent zone gateway pn_id zero = ask (
      network_api (
        create_gateway_network (record {
          zone = zone;
          gateway = gateway;
          private_network = pn_id;
          enable_dhcp = true;
          enable_masquerade = true;
          push_default_route = true;
        })))
  attach_if_absent zone gateway pn_id (suc n) = pure tt

  abbrev has_both : Bool
  has_both = has_private_network s.cluster && has_public_gateway s.cluster

  -- `Reconcile`
  unfoldable pub reconcile : Io (Unit {0})
  unfolding attach_if_absent
  reconcile =
      if has_both
      then (do
        spec ← lift (deref (public_gateway_of s.cluster))
        let zone = public_gateway_zone s.cluster
        id ← gateway_id zone spec.id
        pn_id ← lift (private_network_id s.cluster)
        total ← ask (network_api (list_gateway_networks zone id pn_id))
        attach_if_absent zone id pn_id total)
      else pure tt

  unfoldable delete_gateway_if_found : String → Option Gateway → Io (Unit {0})
  delete_gateway_if_found zone none = pure tt
  delete_gateway_if_found zone (some gateway) =
      wrapping (ask (network_api (delete_gateway zone gateway.id)))
        (wrapped "failed to delete PublicGateway")

  delete_ip_if_found : String → Option GatewayIp → Io (Unit {0})
  delete_ip_if_found zone none = pure tt
  delete_ip_if_found zone (some ip) =
      wrapping (ask (network_api (delete_gateway_ip zone ip.id)))
        (wrapped "failed to delete Public Gateway IP")

  -- The last part of `Delete`: an address that was created for the cluster is released.
  unfoldable release_ip : String → PublicGatewaySpec → Io (Unit {0})
  unfolding delete_ip_if_found
  release_ip zone spec =
      if is_none spec.ip
      then (do
        ip ←
            wrapping (or_nil (find_gateway_ip_by_tags s.client zone (tags s.cluster)))
              (wrapped "failed to find Public Gateway IP")
        delete_ip_if_found zone ip)
      else pure tt

  unfoldable delete_own : String → PublicGatewaySpec → Io (Unit {0})
  unfolding delete_gateway_if_found release_ip
  delete_own zone spec = do
    gateway ←
        wrapping (or_nil (find_gateway_by_name s.client zone (name s.cluster)))
          (wrapped "failed to find PublicGateway")
    delete_gateway_if_found zone gateway
    release_ip zone spec

  -- `Delete`: a gateway that the user gave is left alone.
  unfoldable pub delete : Io (Unit {0})
  unfolding delete_own
  delete =
      if has_both
      then (do
        spec ← lift (deref (public_gateway_of s.cluster))
        if is_some spec.id then pure tt else delete_own (public_gateway_zone s.cluster) spec)
      else pure tt
