-- ===== src/Service/Instance/Delete/Laws.antt =====
-- What a deletion of a machine asks for.
use cluster_api_provider_sca.Prelude.{
  ◌≡◌, refl, ◌∙◌, String, Option, none, some, List, [], ◌∷◌, ◌++◌, ◌==◌, arith, find_first,
  if◌then◌else◌,
}
use cluster_api_provider_sca.Result.{ok}
use cluster_api_provider_sca.Cloud.{Request, instance_api}
use cluster_api_provider_sca.Cloud.Instance.{
  Server, ServerState, stopped, in_state, Volume, list_servers, detach_volume, delete_volume,
  delete_server, server_action, terminate, delete_ip,
}
use mathlib.Core.Path.{ap₂}
use cluster_api_provider_sca.Prog.{Handler, result, final, changes, ◌>>◌}
use cluster_api_provider_sca.Prog.Laws.{bind_ok}
use cluster_api_provider_sca.Scope.Machine.{MachineScope, name, zone, lookup}
use cluster_api_provider_sca.Client.Instance.{find_instance_by_name}
use cluster_api_provider_sca.Service.Instance.Delete.{
  delete_flexible_ip, detach_volumes, delete_in, dispose, delete,
}

abbrev pub server_listing : MachineScope → Request
server_listing m = instance_api (list_servers (zone m) (name m))

-- Where no server of the machine's name is listed, a deletion succeeds and changes nothing.
pub delete_absent :
    {S : Type 0} (h : Handler S) (m : MachineScope) (s : S) {servers : List Server}
    → (h (server_listing m) s).0 ≡ ok servers
    → find_first (λ server. server.name == name m) servers ≡ none
    → (changes h (delete m) s ≡ []) × (result h (delete m) s ≡ ok tt)
unfolding delete find_instance_by_name
delete_absent h m s listed absent = ground arith

abbrev detach : Server → Volume → Request
detach server volume = instance_api (detach_volume server.zone volume.id)

-- The requests that detach the volumes of a list that are no boot volumes.
abbrev pub detach_all : Server → List (String × Volume) → List Request
detach_all server [] = []
detach_all server ((key, volume) ∷ rest) =
    let later = detach_all server rest in
    if volume.boot then later else detach server volume ∷ later

detach_volumes-changes :
    {S : Type 0} (h : Handler S) (server : Server) (volumes : List (String × Volume)) (s : S)
    → result h (detach_volumes server volumes) s ≡ ok tt
    → changes h (detach_volumes server volumes) s ≡ detach_all server volumes
unfolding detach_volumes
detach_volumes-changes h server [] s e = refl
detach_volumes-changes h server ((key, volume) ∷ rest) s e = ground (
  arith,
  detach_volumes-changes h server rest s,
  detach_volumes-changes h server rest (h (detach server volume) s).1,
)

abbrev pub boot_volume_of : Server → Option Volume → List Request
boot_volume_of server none = []
boot_volume_of server (some volume) =
    if volume.boot
    then detach server volume ∷ instance_api (delete_volume server.zone volume.id) ∷ []
    else []

-- The last requests of a deletion, by the state of the server.
abbrev pub end_of : ServerState → Server → List Request
end_of stopped server =
    boot_volume_of server (lookup "0" server.volumes)
    ++ instance_api (delete_server server.zone server.id) ∷ []
end_of (in_state state) server = instance_api (server_action server.zone server.id terminate) ∷ []

delete_in-changes :
    {S : Type 0} (h : Handler S) (server : Server) (state : ServerState) (s : S)
    → result h (delete_in state server) s ≡ ok tt
    → changes h (delete_in state server) s ≡ end_of state server
unfolding delete_in
delete_in-changes h server stopped s e = ground arith
delete_in-changes h server (in_state state) s e = ground arith

abbrev pub flexible_ip_of : Server → List Request
flexible_ip_of server = elim server.public_ip [
  | none ↦ []
  | some ip ↦ if ip.dynamic then [] else instance_api (delete_ip server.zone ip.id) ∷ []
]

delete_flexible_ip-changes :
    {S : Type 0} (h : Handler S) (server : Server) (s : S)
    → result h (delete_flexible_ip server) s ≡ ok tt
    → changes h (delete_flexible_ip server) s ≡ flexible_ip_of server
unfolding delete_flexible_ip
delete_flexible_ip-changes h server s e = ground arith

-- Where the disposal of a server succeeds, its flexible address is deleted if it has one that is
-- not dynamic, then every volume that is no boot volume is detached, and then a stopped server is
-- deleted after its boot volume, and any other server is terminated. Nothing else is changed.
pub changes-dispose :
    {S : Type 0} (h : Handler S) (server : Server) (s : S)
    → result h (dispose server) s ≡ ok tt
    → changes h (dispose server) s
      ≡ flexible_ip_of server ++ (detach_all server server.volumes ++ end_of server.state server)
unfolding dispose
changes-dispose h server s done =
    let one =
      bind_ok h (delete_flexible_ip server)
        (λ _. detach_volumes server server.volumes >> delete_in server.state server) s done in
    let t = final h (delete_flexible_ip server) s in
    let two =
      bind_ok h (detach_volumes server server.volumes) (λ _. delete_in server.state server) t
        one.second in
    let u = final h (detach_volumes server server.volumes) t in
    one.changed
    ∙ ap₂ ◌++◌ (delete_flexible_ip-changes h server s one.first) (
        two.changed
        ∙ ap₂ ◌++◌ (detach_volumes-changes h server server.volumes t two.first)
            (delete_in-changes h server server.state u two.second))
