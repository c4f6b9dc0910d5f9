-- ===== src/Replay.antt =====
-- sse/replay_log.py and the reconnect path of sse/replay_wire.py, by part.
pub mod Types
pub mod Evict
pub mod Write
pub mod Read
pub mod Window
pub mod Invariant
pub mod Epoch
pub mod Victim
pub mod Heads
pub mod Budget
pub mod Settle
pub mod Append
pub mod Published
pub mod Maintain
pub mod Sweep
pub mod Moves
pub mod Steps
pub mod Evolve
pub mod Reach
pub mod Paced
pub mod Classify
pub mod Barrier
pub mod Always
pub mod Reserve
mod Tests
