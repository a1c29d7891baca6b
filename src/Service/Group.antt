-- ===== src/Service/Group.antt =====
-- internal/service/scaleway/securitygroup/securitygroup.go: the security groups of a cluster.
pub mod Rules
pub mod Ensure
