-- ===== src/Source.antt =====
-- services/engine/stitch.go: the resolver of source files.
pub mod Blobs
pub mod Bounded
pub mod Lookup
pub mod Prepared
mod Tests
