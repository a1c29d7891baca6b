-- ===== src/Service/Instance/Boot/Laws.antt =====
-- About the cloud-init data and the start of a server.
use cluster_api_provider_sca.Prelude.{◌≡◌, String, none, some, List, [], ◌∷◌, arith}
use cluster_api_provider_sca.Result.{ok, err, bootstrap_data_not_ready}
use cluster_api_provider_sca.Sdk.{Sdk}
use cluster_api_provider_sca.Cloud.{Request, instance_api}
use cluster_api_provider_sca.Cloud.Instance.{
  Server, stopped, in_state, poweron, set_user_data, server_action, get_user_data,
}
use cluster_api_provider_sca.Prog.{Io, Handler, result, changes, ◌>>◌}
use cluster_api_provider_sca.Scope.Machine.{MachineScope, lookup, get_raw_bootstrap_data}
use cluster_api_provider_sca.Service.Instance.Addresses.{MachineIps}
use cluster_api_provider_sca.Service.Instance.Boot.{ensure_cloud_init, ensure_server_started}

-- The last two steps of a reconciliation.
abbrev pub boot : Sdk → MachineScope → Server → MachineIps → Io (Unit {0})
boot sdk m server ips = ensure_cloud_init sdk m server ips >> ensure_server_started server

abbrev start : Server → Request
start server = instance_api (server_action server.zone server.id poweron)

abbrev write_data : Server → String → Request
write_data server text = instance_api (set_user_data server.zone server.id "cloud-init" text)

module _ {S : Type 0} (h : Handler S) (sdk : Sdk) (m : MachineScope) (server : Server)
    (ips : MachineIps) (s : S) where
  -- A server that is not stopped is left as it is.
  pub boot_running :
      (state : String)
      → server.state ≡ in_state state
      → (changes h (boot sdk m server ips) s ≡ []) × (result h (boot sdk m server ips) s ≡ ok tt)
  unfolding ensure_cloud_init ensure_server_started
  boot_running state e = ground arith

  abbrev read_data : Request
  read_data = instance_api (get_user_data server.zone server.id)

  -- A stopped server whose cloud-init data is there is started, and its data is not written again.
  pub boot_prepared :
      {entries : List (String × String)} {text : String}
      → server.state ≡ stopped
      → (h read_data s).0 ≡ ok entries
      → lookup "cloud-init" entries ≡ some text
      → changes h (boot sdk m server ips) s ≡ start server ∷ []
  unfolding ensure_cloud_init ensure_server_started
  boot_prepared e read there = ground arith

  -- While the bootstrap data is not there, a stopped server without cloud-init data is not started.
  pub boot_waits :
      {entries : List (String × String)}
      → server.state ≡ stopped
      → (h read_data s).0 ≡ ok entries
      → lookup "cloud-init" entries ≡ none
      → m.machine.data_secret_name ≡ none
      → (changes h (boot sdk m server ips) s ≡ [])
        × (result h (boot sdk m server ips) s ≡ err bootstrap_data_not_ready)
  unfolding ensure_cloud_init ensure_server_started get_raw_bootstrap_data
  boot_waits e read absent no_secret = ground arith
