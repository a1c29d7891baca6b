-- ===== src/Service/Instance/Boot.antt =====
-- `patchBootstrapData`, `ensureCloudInit` and `ensureServerStarted`.
pub mod Laws
pub mod Safe
pub mod First
use cluster_api_provider_sca.Prelude.{
  String, Bool, true, false, Option, none, some, List, [], ◌∷◌, if◌then◌else◌,
}
use cluster_api_provider_sca.Result.{Result, ok, wrapped, ◌>>=◌ as ◌then_result◌}
use cluster_api_provider_sca.Sdk.{Sdk}
use cluster_api_provider_sca.Cloud.{instance_api}
use cluster_api_provider_sca.Cloud.Instance.{
  Server, ServerState, stopped, in_state, poweron, get_user_data, set_user_data, server_action,
}
use cluster_api_provider_sca.Prog.{Io, ask, pure, lift, wrapping, ◌>>=◌, ◌>>◌}
use cluster_api_provider_sca.Scope.Machine.{
  MachineScope, lookup, get_raw_bootstrap_data, provider_id,
}
use cluster_api_provider_sca.Service.Instance.Addresses.{MachineIps, node_ip}

-- `patchBootstrapData`
unfoldable pub patch_bootstrap_data : Sdk → String → String → String → Result String
patch_bootstrap_data sdk text node provider =
    wrapped "unable to parse bootstrap data template" (sdk.parse_template text)
    then_result λ template.
        wrapped "failed to execute bootstrap data template"
          (sdk.execute_template template node provider)

module _ (sdk : Sdk) (m : MachineScope) where
  write_cloud_init : Server → MachineIps → Option String → Io (Unit {0})
  unfolding patch_bootstrap_data
  write_cloud_init server ips (some text) = pure tt
  write_cloud_init server ips none = do
    raw ← get_raw_bootstrap_data m
    node ← lift (node_ip ips)
    text ← lift (patch_bootstrap_data sdk raw node (provider_id m server.id))
    ask (instance_api (set_user_data server.zone server.id "cloud-init" text))

  ensure_cloud_init_in : ServerState → Server → MachineIps → Io (Unit {0})
  unfolding write_cloud_init
  ensure_cloud_init_in (in_state state) server ips = pure tt
  ensure_cloud_init_in stopped server ips = do
    entries ← ask (instance_api (get_user_data server.zone server.id))
    write_cloud_init server ips (lookup "cloud-init" entries)

  -- `ensureCloudInit`
  unfoldable pub ensure_cloud_init : Server → MachineIps → Io (Unit {0})
  unfolding ensure_cloud_init_in
  ensure_cloud_init server ips = ensure_cloud_init_in server.state server ips

start_in : ServerState → Server → Io (Unit {0})
start_in (in_state state) server = pure tt
start_in stopped server = ask (instance_api (server_action server.zone server.id poweron))

-- `ensureServerStarted`
unfoldable pub ensure_server_started : Server → Io (Unit {0})
unfolding start_in
ensure_server_started server = start_in server.state server
