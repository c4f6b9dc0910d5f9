-- ===== src/Selector.antt =====
-- selector.py: the dispatch by wire version in front of every `/slimapi` route.
pub mod Paths
pub mod Query
pub mod Request
pub mod Dispatch
pub mod Strip
pub mod Admission
pub mod Ladder
pub mod Passed
pub mod Forward
mod Tests
