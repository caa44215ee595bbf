-- ===== src/Cli.antt =====
-- cmd/dvm/main.go: the commands and the flags.
mod Commands
mod Numbers
mod Arguments
mod Table
mod Main
pub mod Spelling
pub mod Repeated
pub mod Switched
pub mod Ending
pub mod Idle
pub mod Starting
pub mod Forwarding
mod Samples
mod Tests
mod ForwardingTests
unfoldable pub use Commands.*
