-- ===== src/Vz/Run.antt =====
-- internal/vz/vz.go, vz_darwin.go and vz_stub.go: `Run`. Each call of the framework succeeds or fails;
-- its objects are left out.
use dvm.Base.{
  ℤ, pos, leb_int, Bytes, codes, is_empty, ◌++◌, ◌≟◌, Bool, not, ◌||◌, Option, none, some, List, [],
  ◌∷◌, if◌then◌else◌,
}
use dvm.Base.{Result, ok, err}
use dvm.Base.FilePath.{join_path}
use dvm.Cache.Disk.{Disk, write_file, remove, mkdir_all}
use dvm.Vz.Overlay.{OverlayError, CloneIo, ensure_overlay}
use dvm.Vz.Supervise.{Event, state_stopped, Ended, stopped, error_state, forced, wait_for_end}

pub record Forward : Type 0 where
  pub proto : Bytes
  pub host_ip : Bytes
  pub host_port : ℤ
  pub guest_port : ℤ

-- The options but the time to wait for readiness
pub record Options : Type 0 where
  pub name : Bytes
  pub memory_mb : ℤ
  pub cpus : ℤ
  pub kernel_path : Bytes
  pub initrd_path : Bytes
  pub rootfs_raw_path : Bytes
  pub seed_path : Bytes
  pub kernel_cmdline : Bytes
  pub state_dir : Bytes
  pub persist : Bool
  pub console : Bool
  pub ports : List Forward
  pub readiness_guest_ports : List ℤ
  pub services : List Bytes

-- The calls that `Run` makes of the framework and of the source of random bytes
pub data Call : Type 0 where
  boot_loader : Call
  configuration : Call
  root_disk : Call
  root_device : Call
  seed_disk : Call
  seed_device : Call
  random_bytes : Call
  mac_address : Call
  nat_attachment : Call
  network_device : Call
  serial_attachment : Call
  serial_port : Call
  entropy_device : Call
  validation : Call
  machine : Call
  machine_start : Call

-- Those before the serial log is made, and those behind it
unfoldable pub calls_before : Bytes → List Call
calls_before seed =
    boot_loader
    ∷ configuration
    ∷ root_disk
    ∷ root_device
    ∷ ((if is_empty seed then [] else seed_disk ∷ seed_device ∷ [])
        ++ (random_bytes ∷ mac_address ∷ nat_attachment ∷ network_device ∷ []))

abbrev pub calls_behind : List Call
calls_behind =
    serial_attachment ∷ serial_port ∷ entropy_device ∷ validation ∷ machine ∷ machine_start ∷ []

-- The first call that fails ends the run.
unfoldable pub first_failure : (Call → Bool) → List Call → Option Call
first_failure succeeds [] = none
first_failure succeeds (c ∷ calls) =
    let rest = first_failure succeeds calls in if succeeds c then rest else some c

pub data VzError : Type 0 where
  bad_size : VzError
  no_logs : VzError
  overlay_failed : OverlayError → VzError
  framework_failed : Call → VzError
  serial_failed : VzError
  machine_error : VzError
  -- `Run` of vz_stub.go
  unavailable : VzError
  -- no error of the code, and no result of a run: some event ends every wait
  still_waiting : VzError

-- What the run meets; behind the events the machine stops, so that each wait ends.
pub record Site : Type 0 where
  pub logs_ok : Bool
  pub clone_io : CloneIo
  -- the content of the raw base
  pub base : Option Bytes
  pub succeeds : Call → Bool
  pub serial_ok : Bool
  pub guest_writes : Disk → Disk
  pub events : List Event
  pub disk_removable : Bool

abbrev pub all_events : Site → List Event
all_events s = s.events ++ (state_stopped ∷ [])

abbrev pub Outcome : Type 0
Outcome = Result VzError (Unit {0}) × Disk

unfoldable pub disk_image : Bytes → Bytes
disk_image dir = join_path (dir ∷ codes "disk.img" ∷ [])

-- `serialFiles`: the log is made anew unless the terminal is the console.
unfoldable pub open_serial : Bool → Bool → Bytes → Disk → Result VzError (Unit {0}) × Disk
open_serial console can dir d =
    if console
    then (ok tt, d)
    else if can
    then (ok tt, write_file (join_path (dir ∷ codes "logs" ∷ codes "serial.log" ∷ [])) [] d)
    else (err serial_failed, d)

unfoldable pub ended : Option Ended → Result VzError (Unit {0})
ended none = err still_waiting
ended (some stopped) = ok tt
ended (some forced) = ok tt
ended (some error_state) = err machine_error

abbrev pub supervised : Site → Option Call → Disk → Outcome
supervised s (some c) d = (err (framework_failed c), d)
supervised s none d = (ended (wait_for_end (all_events s)), s.guest_writes d)

unfoldable pub boot : Site → Result VzError (Unit {0}) × Disk → Outcome
boot s (err e, d) = (err e, d)
boot s (ok u, d) = supervised s (first_failure s.succeeds calls_behind) d

abbrev pub configured : Site → Options → Option Call → Disk → Outcome
configured s o (some c) d = (err (framework_failed c), d)
configured s o none d = boot s (open_serial o.console s.serial_ok o.state_dir d)

unfoldable pub with_overlay : Site → Options → Result OverlayError (Unit {0}) × Disk → Outcome
with_overlay s o (err e, d) = (err (overlay_failed e), d)
with_overlay s o (ok u, d) = configured s o (first_failure s.succeeds (calls_before o.seed_path)) d

-- The deferred removal of a disk that is not to persist
unfoldable pub drop_disk : Site → Options → Outcome → Outcome
drop_disk s o (r, d) =
    (r, if o.persist then d else if s.disk_removable then remove (disk_image o.state_dir) d else d)

-- `Run`
unfoldable pub run : Site → Options → Disk → Outcome
run s o d =
    if leb_int o.memory_mb (pos 0) || leb_int o.cpus (pos 0)
    then (err bad_size, d)
    else if not s.logs_ok
    then (err no_logs, d)
    else drop_disk s o (
        with_overlay s o (
          ensure_overlay s.clone_io s.base (disk_image o.state_dir) o.persist
            (mkdir_all (join_path (o.state_dir ∷ codes "logs" ∷ [])) d)))

-- The forwards that `manageNetwork` starts a proxy for
unfoldable pub proxied : List Forward → List Forward
proxied [] = []
proxied (p ∷ ports) = let rest = proxied ports in if p.proto ≟ codes "udp" then rest else p ∷ rest

-- `Run` of a build without the framework
unfoldable pub stub_run : Options → Disk → Outcome
stub_run o d = (err unavailable, d)
