-- ===== src/Examples.antt =====
-- The theorems at concrete inputs, and runs of the definitions that the repository's tests and README
-- suggest.
pub mod Agents
pub mod Services
pub mod Snapshots
pub mod Sessions
pub mod Clients
pub mod Conversations
pub mod Systems
