-- ===== src/Service/Instance/Create.antt =====
-- `getOrCreateIP`, `getOrCreateServer` and `getOrCreatePrivateNIC`.
pub mod Safe
use cluster_api_provider_sca.Prelude.{
  ℕ, ◌*◌, ◌%◌, ◌^◌, String, true, false, Option, none, some, [], ◌∷◌, ℤ, to_word, if◌then◌else◌,
}
use cluster_api_provider_sca.Result.{wrapped}
use cluster_api_provider_sca.Sdk.{Sdk}
use cluster_api_provider_sca.Cloud.{instance_api}
use cluster_api_provider_sca.Cloud.Instance.{
  InstanceIp, Server, PrivateNic, create_ip, create_server, create_private_nic, get_local_image,
}
use cluster_api_provider_sca.Prog.{Io, ask, pure, lift, wrapping, or_nil, ◌>>=◌}
use cluster_api_provider_sca.Client.Instance.{
  find_instance_by_name, find_ip_by_tags, find_private_nic_by_pn_id, find_security_group_by_name,
}
use cluster_api_provider_sca.Api.Machine.{scaleway_root_volume_type}
use cluster_api_provider_sca.Scope.Cluster.{
  has_private_network, private_network_id, security_group_name,
}
use cluster_api_provider_sca.Scope.Machine.{MachineScope, needs_public_ip, name, tags, zone}

-- `scw.Size(n) * scw.GB`, in 64 bits
unfoldable pub root_size : Sdk → Option ℤ → ℕ
root_size sdk none = (20 * sdk.gigabyte) % 2 ^ 64
root_size sdk (some n) = (to_word 64 n * sdk.gigabyte) % 2 ^ 64

module _ (m : MachineScope) where
  create_ip_if_nil : Option InstanceIp → Io InstanceIp
  create_ip_if_nil (some ip) = pure ip
  create_ip_if_nil none =
      wrapping (ask (instance_api (create_ip (zone m) (tags m))))
        (wrapped "failed to create Instance IP")

  -- `getOrCreateIP`: nothing where the machine needs no public address.
  unfoldable pub get_or_create_ip : Io (Option InstanceIp)
  unfolding create_ip_if_nil
  get_or_create_ip =
      if needs_public_ip m
      then (do
        found ← or_nil (find_ip_by_tags (zone m) (tags m))
        ip ← create_ip_if_nil found
        pure (some ip))
      else pure none

  -- The identifier of the image: the one given, or that of a label.
  image_id : Sdk → Io String
  image_id sdk =
      if sdk.uuid_is_valid m.scaleway_machine.spec.image
      then pure m.scaleway_machine.spec.image
      else wrapping
          (ask (
            instance_api (
              get_local_image m.scaleway_machine.spec.type (zone m) m.scaleway_machine.spec.image)))
          (wrapped "failed to find image with label")

  group_id : Option String → Io (Option String)
  group_id none = pure none
  group_id (some group) = do
    found ←
        wrapping (find_security_group_by_name (zone m) (security_group_name m.cluster group))
          (wrapped "failed to find security group")
    pure (some found.id)

  abbrev ip_id : Option InstanceIp → Option String
  ip_id none = none
  ip_id (some ip) = some ip.id

  create_server_if_nil : Sdk → Option InstanceIp → Option Server → Io Server
  unfolding image_id group_id
  create_server_if_nil sdk ip (some server) = pure server
  create_server_if_nil sdk ip none = do
    image ← image_id sdk
    group ← group_id m.scaleway_machine.spec.security_group_name
    volume ← lift (scaleway_root_volume_type m.scaleway_machine.spec)
    wrapping
        (ask (
          instance_api (
            create_server (record {
              zone = zone m;
              name = name m;
              commercial_type = m.scaleway_machine.spec.type;
              dynamic_ip_required = false;
              routed_ip_enabled = true;
              image = image;
              security_group = group;
              volumes =
                  (
                    "0",
                    record {
                      size = root_size sdk m.scaleway_machine.spec.root_volume_size;
                      volume_type = volume;
                      boot = true;
                    },
                  )
                  ∷ [];
              public_ip = ip_id ip;
            }))))
        (wrapped "failed to create server")

  -- `getOrCreateServer`
  unfoldable pub get_or_create_server : Sdk → Option InstanceIp → Io Server
  unfolding create_server_if_nil
  get_or_create_server sdk ip = do
    found ← or_nil (find_instance_by_name (zone m) (name m))
    create_server_if_nil sdk ip found

  create_nic_if_nil : Server → String → Option PrivateNic → Io PrivateNic
  create_nic_if_nil server pn_id (some nic) = pure nic
  create_nic_if_nil server pn_id none =
      wrapping (ask (instance_api (create_private_nic (zone m) server.id pn_id)))
        (wrapped "failed to create private NIC")

  -- `getOrCreatePrivateNIC`: nothing where the cluster has no Private Network.
  unfoldable pub get_or_create_private_nic : Server → Io (Option PrivateNic)
  unfolding create_nic_if_nil
  get_or_create_private_nic server =
      if has_private_network m.cluster
      then (do
        pn_id ← lift (private_network_id m.cluster)
        found ← or_nil (find_private_nic_by_pn_id server pn_id)
        nic ← create_nic_if_nil server pn_id found
        pure (some nic))
      else pure none
