-- ===== src/Cache/Refinement.antt =====
-- Every method of the cache does to its entries, in order, what Order says (pkg/cache/lru.go).
pub mod Lookups
mod Eviction
mod Prefixes
pub mod Runs
