-- ===== src/Owdb.antt =====
-- Package db/owdb: the time-ordered store of hits, its filters, and the planning of queries.
pub mod Limits
pub mod Hit
pub mod Filter
pub mod Criterion
pub mod Store
pub mod Saving
pub mod Tests
