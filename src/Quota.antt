-- ===== src/Quota.antt =====
-- src/asterun/quota/: the choice of a candidate by its quota. Quota/Selection is `select` of
-- quota/selection.py, Quota/Scoring is `score_candidate`.
pub mod Selection
pub mod Observations
pub mod Scoring
mod Examples
