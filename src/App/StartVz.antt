-- ===== src/App/StartVz.antt =====
-- internal/app/app.go: `startVZ` and `Start`.
use dvm.Base.{
  ℤ, pos, ltb_int, Bytes, codes, ◌≟◌, is_empty, Bool, false, not, ◌||◌, Option, none, some, List,
  [], ◌∷◌, ◌++◌, map, if◌then◌else◌,
}
use dvm.Base.{ok}
use dvm.Cache.{new_cache}
use dvm.Cache.Disk.{Disk, remove}
use dvm.Component.{Component}
use dvm.Config.{Config, Port, ip_kernel_dhcp, ip_kernel_static}
use dvm.Qemu.{Archive}
use dvm.Vm.{write_seed, SeedIo, seed_path}
use dvm.Vz.{supported}
use dvm.Vz.Run
use dvm.Vz.Run.{Forward, VzError}
use dvm.App.Flags.{pick}
use dvm.App.Create.{App}
use dvm.App.Engine.{resolve_engine}
use dvm.App.Forwards.{loopback, service_lines, readiness_guest_ports}
use dvm.App.Seeding.{Seeding, build_seed}
use dvm.App.Flow.{
  missing_references, no_cache, no_seed, locked, vz_unsupported, seed_failed, vz_failed,
}
use dvm.App.Flow.{Flow, follow, ◌>>=◌, ◌>>◌, done, lift, call, require}
use dvm.App.Start.{
  World, oci_root, state_dir, new_state, take_lock, releasing, resolve_named, start_qemu,
}

-- What the engine meets besides.
pub record VzWorld : Type 0 where
  pub world : World
  -- whether the build has the engine, and the version of the system
  pub built : Bool
  pub version : Option Bytes
  pub reset_ok : Bool
  pub seed_io : SeedIo
  pub vz_site : Run.Site

unfoldable pub vz_supported : VzWorld → Bool
vz_supported v = if v.built then supported v.version else false

unfoldable pub vz_forward : Bytes → Port → Forward
vz_forward bind p = record {
  proto = if is_empty p.protocol then codes "tcp" else p.protocol;
  host_ip = bind;
  host_port = p.host;
  guest_port = p.guest;
}

unfoldable pub vz_ssh_forward : Bytes → ℤ → List Forward
vz_ssh_forward bind port =
    if ltb_int (pos 0) port
    then record { proto = codes "tcp"; host_ip = bind; host_port = port; guest_port = pos 22 } ∷ []
    else []

-- The loop over the ports in `startVZ`, and the forward behind it
unfoldable pub vz_forwards : Config → List Forward
vz_forwards c =
    let bind = pick c.network.bind_address loopback in
    map (vz_forward bind) c.ports ++ vz_ssh_forward bind c.network.ssh_port

unfoldable pub vz_rootfs : Config → Bytes
vz_rootfs c = pick c.components.rootfs_vz c.components.rootfs

unfoldable pub has_vz_references : Config → Bool
has_vz_references c =
    not (is_empty c.components.kernel || is_empty c.components.initrd || is_empty (vz_rootfs c))

unfoldable pub vz_cmdline : Config → Bytes
vz_cmdline c =
    pick c.guest.kernel_cmdline (codes "console=hvc0 root=/dev/vda rw")
    ++ (if (c.network.ip_config ≟ ip_kernel_dhcp) || (c.network.ip_config ≟ ip_kernel_static)
        then codes " ip=dhcp"
        else [])

unfoldable pub vz_options : App → Component → Component → Component → Bytes → Run.Options
vz_options a kernel initrd rootfs seed = record {
  name = a.cfg.name;
  memory_mb = a.cfg.guest.memory_mb;
  cpus = a.cfg.guest.cpus;
  kernel_path = kernel.path;
  initrd_path = initrd.path;
  rootfs_raw_path = rootfs.path;
  seed_path = seed;
  kernel_cmdline = vz_cmdline a.cfg;
  state_dir = state_dir a;
  persist = a.cfg.guest.persist;
  console = a.flag_console;
  ports = vz_forwards a.cfg;
  readiness_guest_ports = readiness_guest_ports a.cfg;
  services = service_lines a.cfg;
}

-- A reset removes the disk; an error of the removal is ignored.
unfoldable pub reset_disk : VzWorld → App → Bytes → Flow (Unit {0})
reset_disk v a dir d =
    (ok tt, if a.flag_reset then if v.reset_ok then remove (Run.disk_image dir) d else d else d)

module _ (sha : Bytes → Bytes) (open_archive : Bytes → Option Archive)
    (encode : Bytes → List (Bytes × Bytes) → Bytes) (blank : Bytes)
    (qemu_img : Bytes → Bytes → Bytes → Bytes → Disk → Bool × Disk) where
  -- The path of the seed, which is written if one is to be generated
  unfoldable pub vz_seed : VzWorld → Bytes → Seeding → Flow Bytes
  vz_seed v dir (none, image) d = (ok image, d)
  vz_seed v dir (some p, image) d =
      if not (is_empty image)
      then (ok image, d)
      else follow (call seed_failed (write_seed sha encode blank v.seed_io (seed_path dir) p) d)
          (λ u. done (seed_path dir))

  -- What happens while the lock is held.
  unfoldable pub vz_boot :
      VzWorld → App → Bytes → Component → Component → Component → Flow (Unit {0})
  vz_boot v a dir kernel initrd rootfs = do
    reset_disk v a dir
    seeding ← lift no_seed (build_seed v.world.host a.cfg)
    seed ← vz_seed v dir seeding
    call vz_failed (Run.run v.vz_site (vz_options a kernel initrd rootfs seed))

  unfoldable pub vz_boot_locked :
      VzWorld → App → Bytes → Component → Component → Component → Flow (Unit {0})
  vz_boot_locked v a dir kernel initrd rootfs d =
      releasing v.world dir (vz_boot v a dir kernel initrd rootfs d)

  -- `startVZ`
  unfoldable pub start_vz : VzWorld → App → Flow (Unit {0})
  start_vz v a = do
    require (vz_supported v) vz_unsupported
    require (has_vz_references a.cfg) missing_references
    root ← call no_cache (new_cache (oci_root a) v.world.cache_io)
    kernel ← resolve_named sha open_archive v.world a root (codes "kernel") a.cfg.components.kernel
    initrd ← resolve_named sha open_archive v.world a root (codes "initrd") a.cfg.components.initrd
    rootfs ← resolve_named sha open_archive v.world a root (codes "rootfs") (vz_rootfs a.cfg)
    dir ← new_state v.world.state_ok (state_dir a)
    call locked (take_lock v.world dir)
    vz_boot_locked v a dir kernel initrd rootfs

  -- `Start`
  unfoldable pub start : VzWorld → App → Flow (Unit {0})
  start v a =
      if resolve_engine (vz_supported v) a ≟ codes "vz"
      then start_vz v a
      else start_qemu sha open_archive encode blank qemu_img v.world a
