-- ===== src/Agents/Writer/Laws.antt =====
-- What the calls of internal/agentlifecycle/writer.go do.
pub mod Steps
pub mod Marks
pub mod Start
