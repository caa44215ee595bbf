-- ===== src/App/Start.antt =====
-- internal/app/app.go: the start of a machine under QEMU, from `qemuPaths` to `startQEMU`. The lock
-- that a start takes is released on each way out behind it.
use dvm.Base.{
  ℤ, Bytes, codes, ◌≟◌, is_empty, Bool, true, false, not, ◌||◌, Option, none, some, List, [], ◌∷◌,
  ◌++◌, if◌then◌else◌,
}
use dvm.Base.{Result, ok, err, take}
use dvm.Base.FilePath.{join_path}
use dvm.Host.{Host, FileInfo}
use dvm.Platform.{state_instance}
use dvm.Component.{Component, abs_path, resolve}
use dvm.Config.{Config}
use dvm.Cache.{Io, new_cache}
use dvm.Cache.Disk.{Entry, file, directory, Disk, remove, mkdir_all}
use dvm.Oci.{Registry, fetch_component, puller_arch}
use dvm.Qemu.{
  Spec, user_net, accel_candidates, system_binary_name, Archive, DownloadIo, ensure_qemu,
  is_present,
}
use dvm.Vm.{LockError, LockHost, acquire_lock, lock_path, check_ports_free, Options, Site, run}
use dvm.App.Create.{App, guest_arch, oci_arch}
use dvm.App.Forwards.{port_forwards, readiness_probes, service_lines}
use dvm.App.Seeding.{Seeding, build_seed, extra_cmdline}
use dvm.App.Flow.{
  FlowError, missing_references, no_qemu_dir, no_qemu, binary_not_found, no_cache, unresolved,
  no_state, locked, port_taken, no_seed, run_failed,
}
use dvm.App.Flow.{Flow, ◌>>=◌, ◌>>◌, done, lift, call, require, put_content}

-- Everything that a start meets: the host, the calls of the cache for each component, the registry,
-- the state directory, the lock, the ports, and the run of the machine.
pub record World : Type 0 where
  pub host : Host
  pub download_io : DownloadIo
  pub cache_io : Io
  pub blob_io : Bytes → Io
  pub registry : Registry
  pub state_ok : Bool
  pub lock_host : LockHost
  pub self : ℤ
  pub lock_removable : Bool
  pub can_listen : Bytes × Bytes → Bool
  pub site : Site

unfoldable pub exe : Host → Bytes → Bytes
exe h name = if h.goos ≟ codes "windows" then name ++ codes ".exe" else name

abbrev pub is_known : Option FileInfo → Bool
is_known none = false
is_known (some fi) = true

-- os.Stat, of a file of the host or of the disk that the program writes
unfoldable pub stat_ok : World → Disk → Bytes → Bool
stat_ok w d p = is_known (w.host.stat p) || is_present (d p)

unfoldable pub find_binary : World → Bytes → Flow Bytes
find_binary w p d = if stat_ok w d p then (ok p, d) else (err (binary_not_found p), d)

unfoldable pub absolute : World → Bytes → Flow Bytes
absolute w dir d = elim (abs_path w.host dir) [
  | none ↦ (err no_qemu_dir, d)
  | some abs ↦ (ok abs, d)
]

-- The preference for an operating system; the map holds no key twice.
unfoldable pub preference_for : Bytes → List (Bytes × List Bytes) → List Bytes
preference_for goos [] = []
preference_for goos ((os, names) ∷ prefs) = if os ≟ goos then names else preference_for goos prefs

unfoldable pub candidates : Host → Config → List Bytes
candidates h c =
    let all = accel_candidates h (preference_for h.goos c.qemu.accel_pref) in
    if c.qemu.accel_fallback then all else take 1 all

unfoldable pub has_references : Config → Bool
has_references c =
    not
      (is_empty c.components.kernel || is_empty c.components.initrd || is_empty c.components.rootfs)

-- The root of the component cache
unfoldable pub oci_root : App → Bytes
oci_root a = join_path (a.dirs.cache ∷ codes "oci" ∷ [])

unfoldable pub state_dir : App → Bytes
state_dir a = state_instance a.dirs a.cfg.name

-- `vm.NewState`
unfoldable pub new_state : Bool → Bytes → Flow Bytes
new_state can dir d =
    if is_empty dir
    then (err no_state, d)
    else if can
    then (ok dir, mkdir_all (join_path (dir ∷ codes "logs" ∷ [])) d)
    else (err no_state, d)

-- What stands at the lock's path, as a content; a directory cannot be read.
abbrev pub lock_content : Option Entry → Option Bytes
lock_content none = none
lock_content (some (file content)) = some content
lock_content (some directory) = some []

unfoldable pub lock_written :
    Bytes → Disk → Result LockError (Unit {0}) × Option Bytes → Result LockError (Unit {0}) × Disk
lock_written p d (ok u, lock) = (ok u, put_content p lock d)
lock_written p d (err e, none) = (err e, remove p d)
lock_written p d (err e, some content) = (err e, d)

-- `AcquireLock` on the disk
unfoldable pub take_lock : World → Bytes → Disk → Result LockError (Unit {0}) × Disk
take_lock w dir d =
    lock_written (lock_path dir) d
      (acquire_lock w.lock_host w.self (lock_content (d (lock_path dir))))

-- `defer release()`: the lock's file is removed, if it can be.
unfoldable pub releasing :
    {A : Type 0} → World → Bytes → Result FlowError A × Disk → Result FlowError A × Disk
releasing w dir (r, d) = (r, if w.lock_removable then remove (lock_path dir) d else d)

module _ (sha : Bytes → Bytes) (open_archive : Bytes → Option Archive) where
  unfoldable pub qemu_dir : World → App → Flow Bytes
  qemu_dir w a d =
      if is_empty a.cfg.components.qemu_dir
      then call no_qemu (ensure_qemu sha open_archive w.host w.download_io a.dirs.cache) d
      else (ok a.cfg.components.qemu_dir, d)

  -- `qemuPaths`
  unfoldable pub qemu_paths : World → App → Flow (Bytes × Bytes)
  qemu_paths w a = do
    dir ← qemu_dir w a
    abs ← absolute w dir
    bin ←
        find_binary w (join_path (abs ∷ exe w.host (system_binary_name (guest_arch w.host a)) ∷ []))
    img ← find_binary w (join_path (abs ∷ exe w.host (codes "qemu-img") ∷ []))
    done (bin, img)

  -- `Resolve` over the puller that `resolver` makes
  unfoldable pub resolve_named : World → App → Bytes → Bytes → Bytes → Flow Component
  resolve_named w a root name ref = call unresolved (
      resolve w.host
        (some (λ n r.
          fetch_component sha root w.registry (w.blob_io n)
            (puller_arch w.host.goarch (oci_arch (guest_arch w.host a))) n r))
        name ref)

unfoldable pub spec_for : World → App → Component → Component → Spec
spec_for w a kernel initrd = record {
  qemu_bin = [];
  guest_arch = guest_arch w.host a;
  memory_mb = a.cfg.guest.memory_mb;
  cpus = a.cfg.guest.cpus;
  accel = [];
  kernel_path = kernel.path;
  initrd_path = initrd.path;
  kernel_cmdline = a.cfg.guest.kernel_cmdline;
  extra_cmdline = extra_cmdline a.cfg user_net;
  drive_path = [];
  seed_path = [];
  net = some user_net;
  ports = port_forwards a.cfg;
  serial_control = record { net = []; addr = [] };
  qmp_control = record { net = []; addr = [] };
  display = codes "none";
  extra_args = a.cfg.qemu.extra_args;
}

unfoldable pub options_for :
    World → App → Bytes × Bytes → Bytes → Spec → Component → Seeding → Options
options_for w a (bin, img) dir spec rootfs (seed, image) = record {
  dir = dir;
  qemu_bin = bin;
  qemu_img = img;
  spec = spec;
  accel_candidates = candidates w.host a.cfg;
  base_rootfs = rootfs.path;
  persist = a.cfg.guest.persist;
  reset = a.flag_reset;
  seed = seed;
  seed_image = image;
  front = record {
    console = a.flag_console;
    detach_key = 0;
    readiness = readiness_probes a.cfg;
    services = service_lines a.cfg;
  };
}

module _ (sha : Bytes → Bytes) (open_archive : Bytes → Option Archive)
    (encode : Bytes → List (Bytes × Bytes) → Bytes) (blank : Bytes)
    (qemu_img : Bytes → Bytes → Bytes → Bytes → Disk → Bool × Disk) where
  -- What happens while the lock is held.
  unfoldable pub boot : World → App → Bytes × Bytes → Bytes → Spec → Component → Flow (Unit {0})
  boot w a bins dir spec rootfs = do
    lift port_taken (check_ports_free w.can_listen spec.ports)
    seeding ← lift no_seed (build_seed w.host a.cfg)
    call run_failed
        (run sha encode blank qemu_img w.site (options_for w a bins dir spec rootfs seeding))

  unfoldable pub boot_locked :
      World → App → Bytes × Bytes → Bytes → Spec → Component → Flow (Unit {0})
  boot_locked w a bins dir spec rootfs d = releasing w dir (boot w a bins dir spec rootfs d)

  -- `startQEMU`
  unfoldable pub start_qemu : World → App → Flow (Unit {0})
  start_qemu w a = do
    require (has_references a.cfg) missing_references
    bins ← qemu_paths sha open_archive w a
    root ← call no_cache (new_cache (oci_root a) w.cache_io)
    kernel ← resolve_named sha open_archive w a root (codes "kernel") a.cfg.components.kernel
    initrd ← resolve_named sha open_archive w a root (codes "initrd") a.cfg.components.initrd
    rootfs ← resolve_named sha open_archive w a root (codes "rootfs") a.cfg.components.rootfs
    dir ← new_state w.state_ok (state_dir a)
    call locked (take_lock w dir)
    boot_locked w a bins dir (spec_for w a kernel initrd) rootfs
