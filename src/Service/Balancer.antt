-- ===== src/Service/Balancer.antt =====
-- internal/service/scaleway/loadbalancer/loadbalancer.go: the control plane's Load Balancer.
pub mod Acls
pub mod Members
pub mod Reconcile
