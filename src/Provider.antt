-- ===== src/Provider.antt =====
-- llm_consensus/provider_health.py, providers.py and verdict_from_payload of verdicts.py: one real
-- provider of the council. Health classifies a failure and keeps the session's latch, Call makes the
-- bounded attempts, Score gives the verdict, Session is the providers' calls over a process.
pub mod Health
pub mod Call
pub mod Reply
pub mod Score
pub mod Session
mod Tests
