-- ===== src/Service/Instance/Reconcile.antt =====
-- `Reconcile` of the instance service.
pub mod Order
pub mod Safe
pub mod Booted
use cluster_api_provider_sca.Prelude.{String, false, Option, none, some, List, [], ◌∷◌, ◌++◌}
use cluster_api_provider_sca.Result.{Result, ok, err, panicked}
use cluster_api_provider_sca.Sdk.{Sdk}
use cluster_api_provider_sca.Prog.{Prog, Io, ret, bind, pure, ◌>>=◌, ◌>>◌}
use cluster_api_provider_sca.Cloud.Instance.{Server}
use cluster_api_provider_sca.Api.Machine.{ScalewayMachine, Address, external_ip, internal_ip}
use cluster_api_provider_sca.Scope.Machine.{MachineScope, provider_id}
use cluster_api_provider_sca.Service.Instance.Create.{
  get_or_create_ip, get_or_create_server, get_or_create_private_nic,
}
use cluster_api_provider_sca.Service.Instance.Addresses.{
  MachineIps, get_machine_ips, ensure_control_plane_load_balancer, ensure_load_balancer_acl,
}
use cluster_api_provider_sca.Service.Instance.Boot.{ensure_cloud_init, ensure_server_started}

abbrev external_address : Option String → List Address
external_address none = []
external_address (some ip) = external_ip ip ∷ []

abbrev internal_address : Option String → List Address
internal_address none = []
internal_address (some ip) = internal_ip ip ∷ []

unfoldable pub addresses_of : MachineIps → List Address
addresses_of ips = external_address ips.external ++ internal_address ips.internal

module _ (sdk : Sdk) (m : MachineScope) where
  -- All of `Reconcile` but the writes to the object.
  unfoldable pub ensure_server : Io (Server × MachineIps)
  ensure_server = do
    ip ← get_or_create_ip m
    server ← get_or_create_server m sdk ip
    nic ← get_or_create_private_nic m server
    ips ← get_machine_ips m server nic
    ensure_control_plane_load_balancer m ips false
    ensure_load_balancer_acl m ips.external
    ensure_cloud_init sdk m server ips
    ensure_server_started server
    pure (server, ips)

  abbrev pub store_server : Result (Server × MachineIps) → Result (Unit {0}) × ScalewayMachine
  store_server (ok (server, ips)) = (
    ok tt,
    record m.scaleway_machine {
      spec = record m.scaleway_machine.spec { provider_id = some (provider_id m server.id) };
      status = record m.scaleway_machine.status { addresses = addresses_of ips };
    },
  )
  store_server (err e) = (err e, m.scaleway_machine)
  store_server panicked = (panicked, m.scaleway_machine)

  -- `Reconcile`, with the object as it leaves it.
  unfoldable pub reconcile : Prog (Result (Unit {0}) × ScalewayMachine)
  reconcile = bind ensure_server (λ r. ret (store_server r))
