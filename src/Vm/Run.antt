-- ===== src/Vm/Run.antt =====
-- Run of internal/vm/lifecycle.go, and the control channels of control_unix.go and
-- control_windows.go.
use dvm.Base.{ℤ, Bytes, codes, ◌≟◌, is_empty, Bool, not, Option, none, some, List, []}
use dvm.Base.{if◌then◌else◌, Result, ok, err}
use dvm.Cache.Disk.{Disk, write_file, remove}
use dvm.Qemu.{Spec, ControlAddr, Link}
use dvm.Vm.State.{
  overlay_path, seed_path, qmp_socket, serial_socket, pid_path, serial_log, pid_line,
}
use dvm.Vm.Overlay.{DiskError, prepare_disk}
use dvm.Vm.Start.{Launch, Process, launch_of, StartError, start_with_fallback}
use dvm.Vm.Seed.{SeedParams, SeedError, SeedIo, write_seed}
use dvm.Vm.Foreground.{Front, Terminal}
use dvm.Vm.Stop.{Guest, SuperviseError, supervise}

pub data RunError : Type 0 where
  disk_failed : DiskError → RunError
  seed_failed : SeedError → RunError
  no_channels : RunError
  start_error : StartError → RunError
  supervised : SuperviseError → RunError

-- The options but the log and the times to wait
pub record Options : Type 0 where
  pub dir : Bytes
  pub qemu_bin : Bytes
  pub qemu_img : Bytes
  pub spec : Spec
  pub accel_candidates : List Bytes
  pub base_rootfs : Bytes
  pub persist : Bool
  pub reset : Bool
  pub seed : Option SeedParams
  pub seed_image : Bytes
  pub front : Front

-- What the run meets: which removals and writes succeed, the addresses of two listeners (on Windows),
-- what becomes of each start of QEMU, what the attempts write (the log of QEMU), what QEMU does to
-- the disk while it runs, the terminal, and the guest.
pub record Site : Type 0 where
  pub windows : Bool
  pub listeners : Option Bytes × Option Bytes
  pub overlay_removable : Bool
  pub overlay_removable_after : Bool
  pub pid_removable : Bool
  pub pid_writable : Bool
  pub serial_writable : Bool
  pub seed_io : SeedIo
  pub process : List Bytes → Process
  pub launch_writes : Disk → Disk
  pub pid : ℤ
  pub guest_writes : Disk → Disk
  pub qmp : Option Link
  pub terminal : Terminal
  pub guest : Guest

-- What becomes of QEMU with some arguments
abbrev pub launching : Site → List Bytes → Launch
launching s args = launch_of (s.process args)

-- `ControlChannels` of control_unix.go
unfoldable pub unix_channels : Bytes → ControlAddr × ControlAddr
unix_channels dir = (
  record { net = codes "unix"; addr = qmp_socket dir },
  record { net = codes "unix"; addr = serial_socket dir },
)

-- `ControlChannels` of control_windows.go
unfoldable pub windows_channels : Option Bytes × Option Bytes → Option (ControlAddr × ControlAddr)
windows_channels (some a, some b) =
    some (record { net = codes "tcp"; addr = a }, record { net = codes "tcp"; addr = b })
windows_channels _ = none

unfoldable pub control_channels : Site → Bytes → Option (ControlAddr × ControlAddr)
control_channels s dir =
    if s.windows then windows_channels s.listeners else some (unix_channels dir)

-- A stale socket is removed.
unfoldable pub remove_socket : ControlAddr → Disk → Disk
remove_socket c d = if c.net ≟ codes "unix" then remove c.addr d else d

abbrev pub RunOutcome : Type 0
RunOutcome = Result RunError (Unit {0}) × Disk

-- The removal of a file whose error is ignored
abbrev pub try_remove : Bool → Bytes → Disk → Disk
try_remove can p d = if can then remove p d else d

abbrev pub try_write : Bool → Bytes → Bytes → Disk → Disk
try_write can p content d = if can then write_file p content d else d

abbrev pub lift_supervise : Result SuperviseError (Unit {0}) → Result RunError (Unit {0})
lift_supervise (ok u) = ok u
lift_supervise (err e) = err (supervised e)

-- From the start of QEMU on; the pid file is cleared on each way out.
unfoldable pub after_start : Site → Options → Disk → RunOutcome
after_start s o d =
    let with_pid = try_write s.pid_writable (pid_path o.dir) (pid_line s.pid) d in
    let with_log = try_write s.serial_writable (serial_log o.dir) [] with_pid in
    (
      lift_supervise (supervise o.front s.terminal s.guest s.qmp).result,
      try_remove s.pid_removable (pid_path o.dir) (s.guest_writes with_log),
    )

unfoldable pub full_spec : Options → Bytes → ControlAddr × ControlAddr → Spec
full_spec o seed (qmp, serial) = record (o.spec) {
  qemu_bin = o.qemu_bin;
  drive_path = overlay_path o.dir;
  seed_path = seed;
  serial_control = serial;
  qmp_control = qmp;
}

unfoldable pub launched : Site → Options → Result StartError Bytes → Disk → RunOutcome
launched s o (err e) d = (err (start_error e), d)
launched s o (ok accel) d = after_start s o d

unfoldable pub with_channels :
    Site → Options → Bytes → Option (ControlAddr × ControlAddr) → Disk → RunOutcome
with_channels s o seed none d = (err no_channels, d)
with_channels s o seed (some (qmp, serial)) d =
    launched s o
      (start_with_fallback (launching s) (full_spec o seed (qmp, serial)) o.accel_candidates)
      (s.launch_writes (remove_socket serial (remove_socket qmp d)))

unfoldable pub with_seed : Site → Options → Result SeedError Bytes × Disk → RunOutcome
with_seed s o (err e, d) = (err (seed_failed e), d)
with_seed s o (ok seed, d) = with_channels s o seed (control_channels s o.dir) d

-- The deferred removal of an overlay that is not to persist
unfoldable pub drop_overlay : Site → Options → RunOutcome → RunOutcome
drop_overlay s o (r, d) =
    (r, if o.persist then d else try_remove s.overlay_removable_after (overlay_path o.dir) d)

abbrev pub seed_at : Bytes → Result SeedError (Unit {0}) × Disk → Result SeedError Bytes × Disk
seed_at path (ok u, d) = (ok path, d)
seed_at path (err e, d) = (err e, d)

module _ (sha : Bytes → Bytes) (encode : Bytes → List (Bytes × Bytes) → Bytes) (blank : Bytes) where
  -- The path of the seed, which is empty for none
  unfoldable pub prepare_seed : Site → Options → Disk → Result SeedError Bytes × Disk
  prepare_seed s o d = if not (is_empty o.seed_image) then (ok o.seed_image, d) else elim o.seed [
    | none ↦ (ok [], d)
    | some p ↦
        seed_at (seed_path o.dir) (write_seed sha encode blank s.seed_io (seed_path o.dir) p d)
  ]

  module _ (qemu_img : Bytes → Bytes → Bytes → Bytes → Disk → Bool × Disk) where
    unfoldable pub with_disk : Site → Options → Result DiskError (Unit {0}) × Disk → RunOutcome
    with_disk s o (err e, d) = (err (disk_failed e), d)
    with_disk s o (ok u, d) = drop_overlay s o (with_seed s o (prepare_seed s o d))

    -- `Run`
    unfoldable pub run : Site → Options → Disk → RunOutcome
    run s o d = with_disk s o (
        prepare_disk qemu_img o.reset o.persist s.overlay_removable o.qemu_img o.base_rootfs
          (overlay_path o.dir) d)
