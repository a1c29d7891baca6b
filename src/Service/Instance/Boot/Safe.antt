-- ===== src/Service/Instance/Boot/Safe.antt =====
-- Panics of starting a server, internal/service/scaleway/instance/instance.go.
use cluster_api_provider_sca.Prelude.{Option, some, none, arith, String}
use cluster_api_provider_sca.Sdk.{Sdk}
use cluster_api_provider_sca.Sdk.Plain.{IsPlain}
use cluster_api_provider_sca.Cloud.Instance.{Server}
use cluster_api_provider_sca.Prog.{Handler}
use cluster_api_provider_sca.Prog.Runs.{Runs, AnyError, Any, Meets, IsCalm}
use cluster_api_provider_sca.Scope.Machine.{MachineScope, get_raw_bootstrap_data}
use cluster_api_provider_sca.Service.Instance.Addresses.{MachineIps}
use cluster_api_provider_sca.Service.Instance.Addresses.Safe.{HaveNode}
use cluster_api_provider_sca.Service.Instance.Boot.{
  patch_bootstrap_data, write_cloud_init, ensure_cloud_init_in, ensure_cloud_init, start_in,
  ensure_server_started,
}

module _ {S : Type 0} (h : Handler S) (calm : IsCalm h) (sdk : Sdk) (plain : IsPlain sdk)
    (m : MachineScope) where
  raw-Runs : Runs h AnyError Any (get_raw_bootstrap_data m)
  unfolding get_raw_bootstrap_data
  raw-Runs s = grind (arith, calm)

  patch-plain :
      (text node provider : String)
      → Meets AnyError Any (patch_bootstrap_data sdk text node provider)
  unfolding patch_bootstrap_data
  patch-plain text node provider =
      let parse = plain.template in let execute = plain.execute in grind (arith, parse, execute)

  write-Runs :
      (server : Server) (ips : MachineIps)
      → HaveNode ips
      → (found : Option String) → Runs h AnyError Any (write_cloud_init sdk m server ips found)
  unfolding write_cloud_init get_raw_bootstrap_data
  write-Runs server ips have (some text) s = tt
  write-Runs server ips have none s = grind (arith, calm, have, patch-plain)

  pub cloud_init-Runs :
      (server : Server) (ips : MachineIps)
      → HaveNode ips
      → Runs h AnyError Any (ensure_cloud_init sdk m server ips)
  unfolding ensure_cloud_init ensure_cloud_init_in
  cloud_init-Runs server ips have s =
      let write = write-Runs server ips have in grind (arith, calm, write)

module _ {S : Type 0} (h : Handler S) (calm : IsCalm h) where
  pub started-Runs : (server : Server) → Runs h AnyError Any (ensure_server_started server)
  unfolding ensure_server_started start_in
  started-Runs server s = grind (arith, calm)
