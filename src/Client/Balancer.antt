-- ===== src/Client/Balancer.antt =====
-- internal/service/scaleway/client/loadbalancer.go
use cluster_api_provider_sca.Prelude.{String, some, ◌==◌}
use cluster_api_provider_sca.Result.{wrapped}
use cluster_api_provider_sca.Cloud.{balancer_api}
use cluster_api_provider_sca.Cloud.Balancer.{
  LoadBalancer, BalancerIp, Backend, Frontend, Acl, list_balancers, list_balancer_ips,
  list_backends, list_frontends, list_acls,
}
use cluster_api_provider_sca.Prog.{Io, ask, lift, wrapping, ◌>>=◌}
use cluster_api_provider_sca.Client.Search.{Client, first_item}

unfoldable pub find_load_balancer_by_name : String → String → Io LoadBalancer
find_load_balancer_by_name zone name = do
  balancers ← ask (balancer_api (list_balancers zone name))
  lift (first_item (λ balancer. balancer.name == name) balancers)

unfoldable pub find_load_balancer_backend_by_names : String → String → String → Io Backend
unfolding find_load_balancer_by_name
find_load_balancer_backend_by_names zone balancer_name backend_name = do
  balancer ← find_load_balancer_by_name zone balancer_name
  backends ← ask (balancer_api (list_backends zone balancer.id (some backend_name)))
  lift (first_item (λ backend. backend.name == backend_name) backends)

unfoldable pub find_load_balancer_frontend_by_names : String → String → String → Io Frontend
unfolding find_load_balancer_by_name
find_load_balancer_frontend_by_names zone balancer_name frontend_name = do
  balancer ← find_load_balancer_by_name zone balancer_name
  frontends ← ask (balancer_api (list_frontends zone balancer.id (some frontend_name)))
  lift (first_item (λ frontend. frontend.name == frontend_name) frontends)

-- The code asks for no further pages here: the listing is the first page.
unfoldable pub find_load_balancer_ip : Client → String → String → Io BalancerIp
find_load_balancer_ip c zone ip = do
  ips ←
      wrapping (ask (balancer_api (list_balancer_ips zone ip c.project_id)))
        (wrapped "failed to list loadbalancer IPs")
  lift (first_item (λ balancer_ip. balancer_ip.ip_address == ip) ips)

unfoldable pub find_load_balancer_acl_by_name : String → String → String → Io Acl
find_load_balancer_acl_by_name zone frontend name = do
  acls ←
      wrapping (ask (balancer_api (list_acls zone frontend name))) (wrapped "failed to list ACLs")
  lift (first_item (λ acl. acl.name == name) acls)
