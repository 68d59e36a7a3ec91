-- ===== src/Verdict.antt =====
-- news_eval/verdict.py: from the family's numbers to statuses, the gross reading, the verdict rows
-- and the decision over both readings.
pub mod Status
pub mod Gross
pub mod Rows
pub mod Decide
mod Tests
