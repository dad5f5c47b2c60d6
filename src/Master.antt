-- ===== src/Master.antt =====
-- master/master_controller.go
pub mod Collect
pub mod Run
pub mod Cover
pub mod Watch
pub mod Total
pub mod Order
pub mod Agents
