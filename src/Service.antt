-- ===== src/Service.antt =====
-- internal/service/scaleway: one service for each kind of cloud resource.
pub mod Vpc
pub mod Gateway
pub mod Balancer
pub mod Group
pub mod Instance
