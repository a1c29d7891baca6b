-- ===== src/Controller/Machine/Leak.antt =====
-- The address of a machine of which the server could not be created:
-- internal/service/scaleway/instance/instance.go under
-- internal/controller/scalewaymachine_controller.go.
use cluster_api_provider_sca.Prelude.{◌≡◌, ap, ◌∙◌, none, some, List, [], ◌++◌, find_first, ◌==◌}
use mathlib.Core.List.{append-nil}
use cluster_api_provider_sca.Result.{Error, Result, ok, err}
use cluster_api_provider_sca.Sdk.{Sdk}
use cluster_api_provider_sca.Cloud.Instance.{InstanceIp, Server}
use cluster_api_provider_sca.Prog.{ret, Handler, result, final, changes}
use cluster_api_provider_sca.Prog.Laws.{result-bind, changes-bind, bind_value, bind_error}
use cluster_api_provider_sca.Scope.Machine.{MachineScope, name}
use cluster_api_provider_sca.Service.Instance.Create.{get_or_create_ip, get_or_create_server}
use cluster_api_provider_sca.Service.Instance.Reconcile as Reconciler
use cluster_api_provider_sca.Service.Instance.Reconcile.Order.{create, connect}
use cluster_api_provider_sca.Service.Instance.Delete as Deleter
use cluster_api_provider_sca.Service.Instance.Delete.Laws.{server_listing, delete_absent}
use cluster_api_provider_sca.Controller.Cluster.{done}
use cluster_api_provider_sca.Controller.Machine.{
  without_finalizer, delete_outcome, reconcile_delete,
}

module _ {S : Type 0} (h : Handler S) (sdk : Sdk) (m : MachineScope) (s : S) where
  -- A run in which the address was found or made, and the server was not.
  failed_server :
      {ip : InstanceIp} {e : Error}
      → result h (get_or_create_ip m) s ≡ ok (some ip)
      → result h (get_or_create_server m sdk (some ip)) (final h (get_or_create_ip m) s) ≡ err e
      → (result h (Reconciler.reconcile sdk m) s ≡ (err e, m.scaleway_machine))
        × (changes h (Reconciler.reconcile sdk m) s
            ≡ changes h (get_or_create_ip m) s
              ++ changes h (get_or_create_server m sdk (some ip)) (final h (get_or_create_ip m) s))
  unfolding Reconciler.reconcile Reconciler.ensure_server
  failed_server {ip} {e} made failed =
      let one = bind_value h (get_or_create_ip m) (create h sdk m) s made in
      let two =
        bind_error h (get_or_create_server m sdk (some ip)) (connect h sdk m)
          (final h (get_or_create_ip m) s) failed in
      let whole = Reconciler.ensure_server sdk m in
      let store = λ (r : Result _). ret (Reconciler.store_server sdk m r) in
      (
        result-bind h whole store s ∙ ap (Reconciler.store_server sdk m) (one.0 ∙ two.0),
        changes-bind h whole store s
            ∙ append-nil _
            ∙ one.1
            ∙ ap (λ l. changes h (get_or_create_ip m) s ++ l) two.1,
      )

  -- Where the address of a machine was found or made, the server then could not be created, and no
  -- server of its name is listed after that, the reconciliation has changed what those two steps
  -- change, the address included; and a deletion of the machine from the state that it leaves comes
  -- to its end, takes the finalizer away and changes nothing: the address is not released.
  pub reconcile_delete-leaves_address :
      {ip : InstanceIp} {e : Error} {servers : List Server}
      → result h (get_or_create_ip m) s ≡ ok (some ip)
      → result h (get_or_create_server m sdk (some ip)) (final h (get_or_create_ip m) s) ≡ err e
      → (h (server_listing m) (final h (Reconciler.reconcile sdk m) s)).0 ≡ ok servers
      → find_first (λ server. server.name == name m) servers ≡ none
      → let t = final h (Reconciler.reconcile sdk m) s in
        (result h (Reconciler.reconcile sdk m) s ≡ (err e, m.scaleway_machine))
        × (changes h (Reconciler.reconcile sdk m) s
            ≡ changes h (get_or_create_ip m) s
              ++ changes h (get_or_create_server m sdk (some ip)) (final h (get_or_create_ip m) s))
        × (result h (reconcile_delete m) t ≡ (ok done, without_finalizer m.scaleway_machine))
        × (changes h (reconcile_delete m) t ≡ [])
  unfolding reconcile_delete
  reconcile_delete-leaves_address made failed listed absent =
      let t = final h (Reconciler.reconcile sdk m) s in
      let (run, changed) = failed_server made failed in
      let (quiet, deleted) = delete_absent h m t listed absent in
      let outcome = λ (r : Result (Unit {0})). ret (delete_outcome m.scaleway_machine r) in
      (
        run,
        changed,
        result-bind h (Deleter.delete m) outcome t ∙ ap (delete_outcome m.scaleway_machine) deleted,
        changes-bind h (Deleter.delete m) outcome t ∙ append-nil _ ∙ quiet,
      )
