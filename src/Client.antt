-- ===== src/Client.antt =====
-- internal/service/scaleway/client: the searches over the listings of the Scaleway APIs.
mod Search
pub mod Found
pub mod Instance
pub mod Balancer
pub mod Network
pub use Search.*
