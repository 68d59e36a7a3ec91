-- ===== src/Council.antt =====
-- llm_consensus/: the council of language models, from the verdicts to the consensus.
pub mod Gate
pub mod Vote
pub mod Round
mod Tests
