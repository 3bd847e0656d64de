-- ===== src/Agent.antt =====
-- The durable agent runtime (src/apps/ai).
pub mod Model
pub mod Machine
pub mod Budget
pub mod Checkpoint
pub mod Transcript
pub mod Registry
pub mod Executor
pub mod Loop
mod Tests
