-- ===== src/Vm.antt =====
-- internal/vm: the state directory, the disk overlay, and the start, supervision and end of QEMU.
mod State
mod Overlay
mod Start
mod Seed
mod Ready
mod Stop
mod Run
mod Console
mod Foreground
pub mod Told
pub mod Processes
mod Runs
pub mod Locking
pub mod Exclusion
pub mod Race
pub mod Racing
pub mod Undisturbed
pub mod Calm
pub mod Disks
pub mod Starting
pub mod Cleanup
pub mod Typing
pub mod Booted
pub mod Waiting
pub mod Seeding
pub mod Samples
mod Tests
mod RunTests
mod WaitingTests
mod ConsoleTests
mod RaceTests
mod ForegroundTests
unfoldable pub use Runs.*
unfoldable pub use State.*
unfoldable pub use Overlay.*
unfoldable pub use Start.*
unfoldable pub use Seed.*
unfoldable pub use Ready.*
unfoldable pub use Stop.*
unfoldable pub use Run.*
unfoldable pub use Console.*
pub use Foreground.{Front, Terminal, Screen, SerialRound}
unfoldable pub use Foreground.{foreground}
