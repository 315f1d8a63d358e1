-- ===== src/Api/Identifiers.antt =====
-- API/identifiers.py: the ledger of a session's requests, and the registries of branch ids,
-- decision points and hypothesis indices of one instance.
pub mod Ledger
pub mod Branches
pub mod Decisions
pub mod Hypotheses
