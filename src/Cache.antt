-- ===== src/Cache.antt =====
-- internal/cache/cache.go: the content-addressed store of blobs.
pub mod Disk
mod Store
pub mod BlobPaths
pub mod Commits
mod Outcomes
pub mod Integrity
pub mod Refinement
pub mod Samples
mod Tests
unfoldable pub use Store.*
