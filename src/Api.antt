-- ===== src/Api.antt =====
-- api/v1beta1: the objects that the controllers reconcile, and the conversions of their fields.
pub mod Group
pub mod Ports
pub mod Cluster
pub mod Machine
