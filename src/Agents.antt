-- ===== src/Agents.antt =====
-- The agents: their table (internal/state/pgstore) and their lifecycle (internal/agentlifecycle).
pub mod Store
pub mod Snapshot
pub mod Writer
