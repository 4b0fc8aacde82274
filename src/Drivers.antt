-- ===== src/Drivers.antt =====
-- internal/drivers: the driver's use cases.
pub mod Models
pub mod Repository
pub mod Service
pub mod Accepting
pub mod EarlyCheck
pub mod Winning
pub mod Conflicts
pub mod Handler
pub mod Signals
