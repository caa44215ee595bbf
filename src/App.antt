-- ===== src/App.antt =====
-- internal/app/app.go: from the flags and the configuration file to a run of an engine.
pub mod Flags
mod Create
mod Forwards
mod Engine
mod Seeding
pub mod Flow
mod Start
mod StartVz
mod Manage
pub mod Merging
pub mod Mapping
pub mod Choice
pub mod Releasing
pub mod Engines
pub mod Booting
pub mod Launching
pub mod Cleaning
mod Version
mod Tests
pub mod Samples
mod StartTests
unfoldable pub use Flags.*
unfoldable pub use Create.*
unfoldable pub use Forwards.*
unfoldable pub use Engine.*
unfoldable pub use Seeding.*
unfoldable pub use Start.*
unfoldable pub use StartVz.*
unfoldable pub use Version.*
unfoldable pub use Manage.*
