-- ===== src/Oci.antt =====
-- internal/oci: pulling components from an OCI registry.
mod Manifest
mod Pull
pub mod Checking
pub mod Layers
pub mod Pulling
mod Tests
unfoldable pub use Manifest.*
unfoldable pub use Pull.*
