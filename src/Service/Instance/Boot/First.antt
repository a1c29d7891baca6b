-- ===== src/Service/Instance/Boot/First.antt =====
-- What comes before the start of a server: `ensureCloudInit` and `ensureServerStarted` of
-- internal/service/scaleway/instance/instance.go, in a whole `Reconcile`.
use cluster_api_provider_sca.Prelude.{
  ◌≡◌, ◌≢◌, ◌⊎◌, refl, inl, inr, String, Option, none, some, List, [], ◌∷◌, arith,
}
use cluster_api_provider_sca.Result.{Result, ok, err, panicked}
use cluster_api_provider_sca.Sdk.{Sdk}
use cluster_api_provider_sca.Cloud.{Request, instance_api}
use cluster_api_provider_sca.Cloud.Instance.{
  Server, ServerState, stopped, in_state, poweron, set_user_data, server_action, get_user_data,
}
use cluster_api_provider_sca.Prog.{Handler, result, changes, lift, ask, ◌>>=◌}
use cluster_api_provider_sca.Prog.Laws.{bind_ok, continue_post}
use cluster_api_provider_sca.Scope.Machine.{
  MachineScope, lookup, get_raw_bootstrap_data, provider_id,
}
use cluster_api_provider_sca.Service.Instance.Addresses.{MachineIps, node_ip}
use cluster_api_provider_sca.Service.Instance.Boot.{
  patch_bootstrap_data, write_cloud_init, ensure_cloud_init, ensure_server_started,
}

abbrev pub start : Server → Request
start server = instance_api (server_action server.zone server.id poweron)

abbrev pub read_data : Server → Request
read_data server = instance_api (get_user_data server.zone server.id)

abbrev pub write_data : Server → String → Request
write_data server text = instance_api (set_user_data server.zone server.id "cloud-init" text)

module _ {S : Type 0} (h : Handler S) (sdk : Sdk) (m : MachineScope) (server : Server)
    (ips : MachineIps) (s : S) where
  -- The bootstrap data of the machine, with the address of its node and the identifier of the server
  -- put in, is written.
  abbrev pub IsWritten : Type 0
  IsWritten =
      (raw : String) × (node : String) × (text : String) × (result h (get_raw_bootstrap_data m)
          (h (read_data server) s).1
        ≡ ok raw)
      × (node_ip ips ≡ ok node)
      × (patch_bootstrap_data sdk raw node (provider_id m server.id) ≡ ok text)
      × (changes h (ensure_cloud_init sdk m server ips) s ≡ write_data server text ∷ [])

  -- The server is not stopped; or it has cloud-init data; or it gets some.
  abbrev pub IsPrepared : Type 0
  IsPrepared =
      ((server.state ≢ stopped) × (changes h (ensure_cloud_init sdk m server ips) s ≡ []))
      ⊎ ((server.state ≡ stopped)
          × (entries : List (String × String)) × ((h (read_data server) s).0 ≡ ok entries)
          × (((lookup "cloud-init" entries ≢ none)
                × (changes h (ensure_cloud_init sdk m server ips) s ≡ []))
              ⊎ ((lookup "cloud-init" entries ≡ none) × IsWritten)))

  written_change :
      {entries : List (String × String)} {raw node text : String}
      → server.state ≡ stopped
      → (h (read_data server) s).0 ≡ ok entries
      → lookup "cloud-init" entries ≡ none
      → result h (get_raw_bootstrap_data m) (h (read_data server) s).1 ≡ ok raw
      → node_ip ips ≡ ok node
      → patch_bootstrap_data sdk raw node (provider_id m server.id) ≡ ok text
      → changes h (ensure_cloud_init sdk m server ips) s ≡ write_data server text ∷ []
  unfolding ensure_cloud_init get_raw_bootstrap_data
  written_change e read absent data_read node patched = ground arith

  written :
      {entries : List (String × String)}
      → server.state ≡ stopped
      → (h (read_data server) s).0 ≡ ok entries
      → lookup "cloud-init" entries ≡ none
      → result h (write_cloud_init sdk m server ips none) (h (read_data server) s).1 ≡ ok tt
      → IsWritten
  unfolding write_cloud_init
  written e read absent done =
      let patch =
        λ (raw node : String). patch_bootstrap_data sdk raw node (provider_id m server.id) in
      let put = λ (text : String).
        ask (instance_api (set_user_data server.zone server.id "cloud-init" text)) in
      let with_node = λ (raw node : String). lift (patch raw node) >>= put in
      let one =
        bind_ok h (get_raw_bootstrap_data m) (λ raw. lift (node_ip ips) >>= with_node raw)
          (h (read_data server) s).1 done in
      continue_post h (with_node one.value) _ (node_ip ips) one.second λ node found run.
        continue_post h put _ (patch one.value node) run λ text patched _. (
          one.value,
          node,
          text,
          one.first,
          found,
          patched,
          written_change e read absent one.first found patched,
        )

  stopped-IsPrepared :
      server.state ≡ stopped → result h (ensure_cloud_init sdk m server ips) s ≡ ok tt → IsPrepared
  unfolding ensure_cloud_init
  stopped-IsPrepared e done = go (h (read_data server) s).0 refl
    where
      with_entries :
          (entries : List (String × String))
          → (h (read_data server) s).0 ≡ ok entries
          → (found : Option String) → lookup "cloud-init" entries ≡ found
          → IsPrepared
      with_entries entries read (some text) there =
          inr (e, entries, read, inl ((λ p. absurd (cc)), ground arith))
      with_entries entries read none absent =
          inr (e, entries, read, inr (absent, written e read absent (ground arith)))

      go : (r : Result (List (String × String))) → (h (read_data server) s).0 ≡ r → IsPrepared
      go (ok entries) read = with_entries entries read (lookup "cloud-init" entries) refl
      go (err e') read = absurd (ground arith)
      go panicked read = absurd (ground arith)

  pub cloud_init-IsPrepared : result h (ensure_cloud_init sdk m server ips) s ≡ ok tt → IsPrepared
  unfolding ensure_cloud_init
  cloud_init-IsPrepared done = go server.state refl
    where
      go : (state : ServerState) → server.state ≡ state → IsPrepared
      go stopped e = stopped-IsPrepared e done
      go (in_state state) e = inl ((λ p. absurd (cc)), ground arith)

-- What the start of a server changes: it is started where it is stopped.
abbrev pub IsStarted : Server → List Request → Type 0
IsStarted server asked =
    ((server.state ≢ stopped) × (asked ≡ []))
    ⊎ ((server.state ≡ stopped) × (asked ≡ start server ∷ []))

pub start-IsStarted :
    {S : Type 0} (h : Handler S) (server : Server) (s : S)
    → IsStarted server (changes h (ensure_server_started server) s)
unfolding ensure_server_started
start-IsStarted h server s = go server.state refl
  where
    go :
        (state : ServerState)
        → server.state ≡ state
        → IsStarted server (changes h (ensure_server_started server) s)
    go stopped e = inr (e, ground arith)
    go (in_state state) e = inl ((λ p. absurd (cc)), ground arith)
