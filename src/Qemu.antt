-- ===== src/Qemu.antt =====
-- internal/qemu: the QEMU command line, the accelerators, the network backend, the control channels
-- and the monitor protocol.
mod Accel
mod Network
mod Control
mod Command
mod Monitor
mod Tar
mod Download
pub mod Candidates
pub mod Options
pub mod Forwards
pub mod Replies
pub mod Confined
pub mod Fetching
pub mod Installed
mod Tests
mod DownloadTests
unfoldable pub use Accel.*
unfoldable pub use Network.*
unfoldable pub use Control.*
unfoldable pub use Command.*
unfoldable pub use Monitor.*
unfoldable pub use Tar.*
unfoldable pub use Download.*
