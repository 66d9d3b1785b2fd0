-- ===== src/Tests.antt =====
-- Runs of the model at concrete inputs: each instance is of a theorem that has hypotheses.
pub mod Setting
pub mod Verification
pub mod Parsing
pub mod Disclosures
pub mod Policies
pub mod Issuance
pub mod Holding
pub mod Batches
pub mod Executors
pub mod Issuing
