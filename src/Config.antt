-- ===== src/Config.antt =====
-- internal/app/config.go: the configuration, how it is found, read and checked, and the syntax of
-- the flag --port.
mod Defs
mod Load
mod Validate
mod PortSpec
pub mod Valid
pub mod Lookup
pub mod Specs
mod Tests
unfoldable pub use Defs.*
unfoldable pub use Load.*
unfoldable pub use Validate.*
unfoldable pub use PortSpec.*
