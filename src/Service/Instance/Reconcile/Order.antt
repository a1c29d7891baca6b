-- ===== src/Service/Instance/Reconcile/Order.antt =====
-- The steps of a reconciliation of an instance, in their order.
use cluster_api_provider_sca.Prelude.{◌≡◌, refl, ap, sym, ◌∙◌, false, Option, List, ◌++◌}
use mathlib.Core.List.{append-nil}
use cluster_api_provider_sca.Result.{Result, ok, err, panicked}
use cluster_api_provider_sca.Sdk.{Sdk}
use cluster_api_provider_sca.Cloud.{Request}
use cluster_api_provider_sca.Cloud.Instance.{InstanceIp, Server, PrivateNic}
use cluster_api_provider_sca.Prog.{Io, ret, pure, ◌>>=◌, Handler, result, final, changes}
use cluster_api_provider_sca.Prog.Laws.{result-bind, changes-bind, bind_ok}
use cluster_api_provider_sca.Api.Machine.{ScalewayMachine}
use cluster_api_provider_sca.Scope.Machine.{MachineScope}
use cluster_api_provider_sca.Service.Instance.Create.{
  get_or_create_ip, get_or_create_server, get_or_create_private_nic,
}
use cluster_api_provider_sca.Service.Instance.Addresses.{
  MachineIps, get_machine_ips, ensure_control_plane_load_balancer, ensure_load_balancer_acl,
}
use cluster_api_provider_sca.Service.Instance.Boot.{ensure_cloud_init, ensure_server_started}
use cluster_api_provider_sca.Service.Instance.Reconcile.{ensure_server, store_server, reconcile}

-- The states between the steps of a run that gives these values.
module _ {S : Type 0} (h : Handler S) (sdk : Sdk) (m : MachineScope) (s : S)
    (ip : Option InstanceIp) (server : Server) (nic : Option PrivateNic) (ips : MachineIps) where
  abbrev pub with_ip : S
  with_ip = final h (get_or_create_ip m) s

  abbrev pub with_server : S
  with_server = final h (get_or_create_server m sdk ip) with_ip

  abbrev pub with_nic : S
  with_nic = final h (get_or_create_private_nic m server) with_server

  abbrev pub with_addresses : S
  with_addresses = final h (get_machine_ips m server nic) with_nic

  abbrev pub in_pool : S
  in_pool = final h (ensure_control_plane_load_balancer m ips false) with_addresses

  abbrev pub allowed : S
  allowed = final h (ensure_load_balancer_acl m ips.external) in_pool

  abbrev pub prepared : S
  prepared = final h (ensure_cloud_init sdk m server ips) allowed

  -- What the steps change, one after the other.
  abbrev pub steps : List Request
  steps =
      changes h (get_or_create_ip m) s
      ++ (changes h (get_or_create_server m sdk ip) with_ip
          ++ (changes h (get_or_create_private_nic m server) with_server
              ++ (changes h (get_machine_ips m server nic) with_nic
                  ++ (changes h (ensure_control_plane_load_balancer m ips false) with_addresses
                      ++ (changes h (ensure_load_balancer_acl m ips.external) in_pool
                          ++ (changes h (ensure_cloud_init sdk m server ips) allowed
                              ++ changes h (ensure_server_started server) prepared))))))

-- A run that goes through all steps: their values, and that each of them succeeds.
pub record Steps {S : Type 0} (h : Handler S) (sdk : Sdk) (m : MachineScope) (s : S)
    (server : Server) (ips : MachineIps) (asked : List Request) : Type 0 where
  pub ip : Option InstanceIp
  pub nic : Option PrivateNic
  pub has_ip : result h (get_or_create_ip m) s ≡ ok ip
  pub has_server :
      result h (get_or_create_server m sdk ip) (with_ip h sdk m s ip server nic ips) ≡ ok server
  pub has_nic :
      result h (get_or_create_private_nic m server) (with_server h sdk m s ip server nic ips)
      ≡ ok nic
  pub has_addresses :
      result h (get_machine_ips m server nic) (with_nic h sdk m s ip server nic ips) ≡ ok ips
  pub pooled :
      result h
        (ensure_control_plane_load_balancer m ips false)
        (with_addresses h sdk m s ip server nic ips)
      ≡ ok tt
  pub permitted :
      result h (ensure_load_balancer_acl m ips.external) (in_pool h sdk m s ip server nic ips)
      ≡ ok tt
  pub initialised :
      result h (ensure_cloud_init sdk m server ips) (allowed h sdk m s ip server nic ips) ≡ ok tt
  pub started :
      result h (ensure_server_started server) (prepared h sdk m s ip server nic ips) ≡ ok tt
  pub changed : asked ≡ steps h sdk m s ip server nic ips

onto : (before : List Request) {xs ys : List Request} → xs ≡ ys → before ++ xs ≡ before ++ ys
onto before e = ap (λ l. before ++ l) e

module _ {S : Type 0} (h : Handler S) (sdk : Sdk) (m : MachineScope) where
  abbrev finish : Server → MachineIps → Io (Server × MachineIps)
  finish server ips = pure (server, ips)

  abbrev start : Server → MachineIps → Io (Server × MachineIps)
  start server ips = ensure_server_started server >>= λ _. finish server ips

  abbrev prepare : Server → MachineIps → Io (Server × MachineIps)
  prepare server ips = ensure_cloud_init sdk m server ips >>= λ _. start server ips

  abbrev allow : Server → MachineIps → Io (Server × MachineIps)
  allow server ips = ensure_load_balancer_acl m ips.external >>= λ _. prepare server ips

  abbrev join : Server → MachineIps → Io (Server × MachineIps)
  join server ips = ensure_control_plane_load_balancer m ips false >>= λ _. allow server ips

  abbrev address : Server → Option PrivateNic → Io (Server × MachineIps)
  address server nic = get_machine_ips m server nic >>= join server

  abbrev pub connect : Server → Io (Server × MachineIps)
  connect server = get_or_create_private_nic m server >>= address server

  abbrev pub create : Option InstanceIp → Io (Server × MachineIps)
  create ip = get_or_create_server m sdk ip >>= connect

  ensure_server-Steps :
      (s : S) {server : Server} {ips : MachineIps}
      → result h (ensure_server sdk m) s ≡ ok (server, ips)
      → Steps h sdk m s server ips (changes h (ensure_server sdk m) s)
  unfolding ensure_server
  ensure_server-Steps s {server} {ips} done =
      let one = bind_ok h (get_or_create_ip m) create s done in
      let two = bind_ok h (get_or_create_server m sdk one.value) connect _ one.second in
      let three =
        bind_ok h (get_or_create_private_nic m two.value) (address two.value) _ two.second in
      let four =
        bind_ok h (get_machine_ips m two.value three.value) (join two.value) _ three.second in
      let five =
        bind_ok h (ensure_control_plane_load_balancer m four.value false)
          (λ _. allow two.value four.value) _ four.second in
      let six =
        bind_ok h (ensure_load_balancer_acl m four.value.external)
          (λ _. prepare two.value four.value) _ five.second in
      let seven =
        bind_ok h (ensure_cloud_init sdk m two.value four.value) (λ _. start two.value four.value) _
          six.second in
      let eight =
        bind_ok h (ensure_server_started two.value) (λ _. finish two.value four.value) _
          seven.second in
      let last : (two.value, four.value) ≡ (server, ips) = cc in
      let e : server ≡ two.value = sym (ap (λ (p : Server × MachineIps). p.0) last) in
      let e' : ips ≡ four.value = sym (ap (λ (p : Server × MachineIps). p.1) last) in
      rw (e, e')
        (record {
          ip = one.value;
          nic = three.value;
          has_ip = one.first;
          has_server = two.first;
          has_nic = three.first;
          has_addresses = four.first;
          pooled = five.first;
          permitted = six.first;
          initialised = seven.first;
          started = eight.first;
          changed =
              one.changed
              ∙ onto _ (
                  two.changed
                  ∙ onto _ (
                      three.changed
                      ∙ onto _ (
                          four.changed
                          ∙ onto _ (
                              five.changed
                              ∙ onto _ (
                                  six.changed
                                  ∙ onto _
                                      (seven.changed ∙ onto _ (eight.changed ∙ append-nil _)))))));
        })

  stored_server :
      (r : Result (Server × MachineIps)) {m' : ScalewayMachine}
      → store_server sdk m r ≡ (ok tt, m')
      → (server : Server) × (ips : MachineIps) × (r ≡ ok (server, ips))
  stored_server (ok (server, ips)) done = (server, ips, refl)
  stored_server (err e) done = absurd (cc)
  stored_server panicked done = absurd (cc)

  -- A reconciliation of an instance that succeeds has gone through all its steps, each of which
  -- succeeded: the address, the server, the private NIC, the addresses of the machine, the pool of
  -- the Load Balancer, the ACL of the machine, the cloud-init data and the start. It changes what
  -- they change, in this order, and the object that it leaves holds the server and the addresses
  -- that they gave.
  pub reconcile-Steps :
      (s : S) {m' : ScalewayMachine}
      → result h (reconcile sdk m) s ≡ (ok tt, m')
      → (server : Server) × (ips : MachineIps) × Steps h sdk m s server ips
          (changes h (reconcile sdk m) s)
        × (m' ≡ (store_server sdk m (ok (server, ips))).1)
  unfolding reconcile
  reconcile-Steps s {m'} done =
      let stored =
        sym (result-bind h (ensure_server sdk m) (λ r. ret (store_server sdk m r)) s) ∙ done in
      let (server, ips, run) = stored_server (result h (ensure_server sdk m) s) stored in
      let quiet =
        changes-bind h (ensure_server sdk m) (λ r. ret (store_server sdk m r)) s ∙ append-nil _ in
      let same : (store_server sdk m (ok (server, ips))) ≡ (ok tt, m') =
        ap (store_server sdk m) (sym run) ∙ stored in
      (
        server,
        ips,
        rw quiet (ensure_server-Steps s run),
        sym (ap (λ (p : Result (Unit {0}) × ScalewayMachine). p.1) same),
      )
