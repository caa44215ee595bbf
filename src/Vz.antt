-- ===== src/Vz.antt =====
-- internal/vz: the engine on Apple's Virtualization.framework, whose calls succeed or fail.
mod Addresses
mod Overlay
mod Supervise
pub mod Run
pub mod Network
pub mod Proxies
pub mod Leases
pub mod Running
pub mod Ending
pub mod Lookups
pub mod Random
mod Tests
mod NetworkTests
unfoldable pub use Addresses.*
unfoldable pub use Overlay.*
unfoldable pub use Supervise.*
