-- ===== src/Service.antt =====
-- service/controllers.go
pub mod Mux
pub mod Jobs
pub mod Registry
pub mod Heartbeat
pub mod Expiry
pub mod Exclusive
pub mod Stuck
pub mod Handler
pub mod Serve
