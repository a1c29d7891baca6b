-- ===== src/Service/Instance.antt =====
-- internal/service/scaleway/instance/instance.go: the server of a machine.
pub mod Create
pub mod Addresses
pub mod Boot
pub mod Reconcile
pub mod Delete
