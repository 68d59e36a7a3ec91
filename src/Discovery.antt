-- ===== src/Discovery.antt =====
-- discovery/run.py: one discovery pass from its guards to the watchlist, over the database that
-- discovery/store.py, discovery/watchlist.py and the backfill write. The files below are its parts.
pub mod State
pub mod Onboard
pub mod Join
pub mod Run
pub mod Steps
pub mod Table
pub mod Promotion
pub mod Budget
pub mod Refusals
pub mod Accounts
pub mod Resolved
mod Tests
