-- ===== src/Service/Instance/Addresses/Laws.antt =====
-- The addresses that `getMachineIPs` returns, and the pool of the control plane.
use cluster_api_provider_sca.Prelude.{
  ◌≡◌, String, Bool, true, false, Option, none, some, List, [], ◌∷◌, ◌==◌, arith, if◌then◌else◌,
  find_first, ◌≢◌, is_some,
}
use cluster_api_provider_sca.Result.{Result, ok, panicked}
use cluster_api_provider_sca.Cloud.{Request, balancer_api}
use cluster_api_provider_sca.Cloud.Instance.{Server, PrivateNic}
use cluster_api_provider_sca.Cloud.Balancer.{Backend, add_backend_servers, remove_backend_servers}
use cluster_api_provider_sca.Prog.{Handler, result, changes}
use cluster_api_provider_sca.Scope.Cluster.{load_balancer_zone, contains}
use cluster_api_provider_sca.Scope.Machine.{MachineScope}
use cluster_api_provider_sca.Client.Balancer.{find_load_balancer_backend_by_names}
use cluster_api_provider_sca.Client.Network.{find_ipv4_by_instance_private_nic_id}
use cluster_api_provider_sca.Service.Balancer.Members.{control_plane_backend_name}
use cluster_api_provider_sca.Scope.Cluster
use cluster_api_provider_sca.Service.Instance.Addresses.{
  MachineIps, node_ip, get_machine_ips, external_ip_of, ensure_control_plane_load_balancer,
}

-- Addresses that were found always give the node one, so `NodeIP` follows no nil pointer. There is
-- a private address exactly where the machine has a private NIC, and the public one is the server's.
pub get_machine_ips-node_ip :
    {S : Type 0} (h : Handler S) (m : MachineScope) (server : Server) (nic : Option PrivateNic)
    (s : S) {ips : MachineIps}
    → result h (get_machine_ips m server nic) s ≡ ok ips
    → (node_ip ips ≢ panicked)
      × (is_some ips.internal ≡ is_some nic)
      × (ips.external ≡ external_ip_of m server)
unfolding get_machine_ips node_ip find_ipv4_by_instance_private_nic_id
get_machine_ips-node_ip h m server none s e = ground arith
get_machine_ips-node_ip h m server (some nic) s e = ground arith

-- The backend of the control plane that an answer to the listing of the backends shows.
abbrev pub backend_seen : Result (List Backend) → Option Backend
backend_seen (ok backends) = find_first (λ b. b.name == control_plane_backend_name) backends
backend_seen _ = none

abbrev pub pool_change : MachineScope → Backend → String → Bool → List Request
pool_change m backend ip true =
    if contains backend.pool ip
    then balancer_api (remove_backend_servers (load_balancer_zone m.cluster) backend.id (ip ∷ []))
      ∷ []
    else []
pool_change m backend ip false =
    if contains backend.pool ip
    then []
    else balancer_api (add_backend_servers (load_balancer_zone m.cluster) backend.id (ip ∷ [])) ∷ []

-- A control plane machine with an address changes the pool of the backend that was found only by
-- its own address: it is added where it is missing, removed on a deletion where it is there, and
-- else nothing is changed.
pub changes-ensure_control_plane :
    {S : Type 0} (h : Handler S) (m : MachineScope) (ips : MachineIps) (deletion : Bool) (s : S)
    {backend : Backend} {ip : String}
    → m.machine.control_plane ≡ true
    → result h
        (find_load_balancer_backend_by_names
          (load_balancer_zone m.cluster)
          (Cluster.name m.cluster)
          control_plane_backend_name)
        s
      ≡ ok backend
    → node_ip ips ≡ ok ip
    → changes h (ensure_control_plane_load_balancer m ips deletion) s
      ≡ pool_change m backend ip deletion
unfolding ensure_control_plane_load_balancer find_load_balancer_backend_by_names
changes-ensure_control_plane h m ips true s cp found addr = ground arith
changes-ensure_control_plane h m ips false s cp found addr = ground arith
