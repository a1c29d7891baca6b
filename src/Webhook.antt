-- ===== src/Webhook.antt =====
-- The validating webhooks of api/v1beta1.
pub mod Field
pub mod Cluster
pub mod Network
pub mod Immutable
pub mod Machine
