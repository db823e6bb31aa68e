-- ===== src/Node.antt =====
-- The Linux node: jw-swarm-nodes/linux/src.
pub mod Start
pub mod Connector
pub mod Artifact
pub mod Proto
pub mod Backend
pub mod Ready
pub mod Prompt
pub mod Schedule
pub mod Counters
pub mod Llama
pub mod Generate
pub mod Settings
pub mod Metrics
pub mod Probe
pub mod Downloads
pub mod Fetch
pub mod Wire
pub mod Enroll
pub mod Coordinator
