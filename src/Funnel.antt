-- ===== src/Funnel.antt =====
-- discovery/funnel.py, and the budget of discovery/run.py: the discovery funnel. Screen is its free
-- stage A, Gate the cheap stage B, Evaluate the paid stage C, Pass the three composed, and Day the
-- passes of one day.
pub mod Screen
pub mod Gate
pub mod Evaluate
pub mod Pass
pub mod Day
mod Tests
