-- ===== src/Combat.antt =====
-- Combat/search: the faults of the combat search and what follows from them, the branches with their
-- leases and workers, the aggregation of a round, and the retry loop over the pool.
pub mod Faults
pub mod Pool
pub mod Branches
pub mod Aggregation
pub mod Coordinator
mod Examples
