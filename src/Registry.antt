-- ===== src/Registry.antt =====
-- registry/: finding attached artifacts, and pruning superseded ones.
pub mod Errors
pub mod Fetch
pub mod Discovery
pub mod Lookup
pub mod Selection
pub mod Prune
pub mod Tests
