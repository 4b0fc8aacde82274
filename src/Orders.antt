-- ===== src/Orders.antt =====
-- internal/orders: the rider's use cases.
pub mod Models
pub mod Repository
pub mod Service
pub mod Handler
pub mod Creating
pub mod Reading
pub mod Requesting
pub mod Visibility
pub mod Signals
