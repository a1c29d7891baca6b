-- ===== src/Scope.antt =====
-- internal/scope: what the services read of the objects that are reconciled.
pub mod Cluster
pub mod Machine
