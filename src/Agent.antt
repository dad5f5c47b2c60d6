-- ===== src/Agent.antt =====
-- agent/agent_controller.go
pub mod Users
pub mod Shares
pub mod Control
pub mod Report
pub mod Phase
pub mod Crew
pub mod Drain
pub mod Plan
