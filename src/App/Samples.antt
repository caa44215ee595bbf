-- ===== src/App/Samples.antt =====
-- Test data: local components, a lock that is free, and a host with a base image on its disk.
use dvm.Base.{Bool}
use dvm.Base.{◌≟◌}
use dvm.Base.{Bytes, codes, pos, true, false, Option, none, some, List, [], ◌∷◌}
use dvm.Samples.{linux_host, vmlinux_info}
use dvm.Host.{Host}
use dvm.Config.{Config, Port, default_config}
use dvm.Cache.Disk.{Disk}
use dvm.Cache.Samples.{io}
use dvm.Oci.{Registry}
use dvm.Qemu.{Archive}
use dvm.Vm
use dvm.Vm.{LockHost}
use dvm.App.Create.{App}
use dvm.App.Start.{World}
use dvm.App.StartVz.{VzWorld}
use dvm.Base.{if◌then◌else◌}
use dvm.Cache.Disk.{file, write_file}

abbrev pub host : Host
host = record linux_host { stat = λ p. some vmlinux_info }

abbrev pub web : Port
web = record { name = codes "web"; protocol = []; host = pos 8080; guest = pos 80; url = [] }

unfoldable pub cfg : Config
unfolding default_config
cfg = record default_config {
  ports = web ∷ [];
  components = record {
    kernel = codes "/k";
    initrd = codes "/i";
    rootfs = codes "/r";
    rootfs_vz = [];
    qemu_dir = codes "/q";
  };
}

abbrev pub app : App
app = record {
  cfg = cfg;
  dirs = record { cache = codes "/c"; state = codes "/s" };
  engine = codes "qemu";
  flag_reset = false;
  flag_console = false;
}

abbrev pub no_registry : Registry
no_registry = record {
  parse_reference = λ r. none;
  new_repository = λ r. none;
  decode_index = λ b. none;
  decode_manifest = λ b. none;
}

abbrev pub site : Vm.Site
site = record {
  windows = false;
  listeners = (none, none);
  overlay_removable = true;
  overlay_removable_after = true;
  pid_removable = true;
  pid_writable = true;
  serial_writable = true;
  seed_io = record { create_ok = true; format_ok = true; write_ok = λ n. true };
  process = λ args. record { has_log = true; is_started = true; exits_early = false };
  launch_writes = λ d. d;
  pid = pos 77;
  guest_writes = λ d. d;
  qmp = none;
  terminal = record {
    serial_rounds = [];
    probe_rounds = [];
    keys = [];
    is_terminal = true;
    can_raw = true;
    screen = record { raw = false; mirrored = false };
  };
  guest = record { ending = Vm.exited_well; stops_in_time = true; stops_on_terminate = true };
}

abbrev pub world : World
world = record {
  host = host;
  download_io = record {
    temp_name = none;
    cache_mkdir_ok = true;
    copy_ok = true;
    extract_io = record { mkdir_ok = λ p. true; create_ok = λ p. true };
    parent_ok = true;
    rename_ok = true;
    marker_ok = true;
  };
  cache_io = io;
  blob_io = λ n. io;
  registry = no_registry;
  state_ok = true;
  lock_host = record {
    can_create = true;
    can_read = true;
    can_remove = true;
    alive = λ pid. false;
  };
  self = pos 41;
  lock_removable = true;
  can_listen = λ a. false;
  site = site;
}

abbrev pub vz_world : VzWorld
vz_world = record {
  world = world;
  built = false;
  version = none;
  reset_ok = true;
  seed_io = record { create_ok = true; format_ok = true; write_ok = λ n. true };
  vz_site = record {
    logs_ok = true;
    clone_io = record { clone_ok = true; create_ok = true; copy_ok = true };
    base = none;
    succeeds = λ c. true;
    serial_ok = true;
    guest_writes = λ d. d;
    events = [];
    disk_removable = true;
  };
}

abbrev pub no_sha : Bytes → Bytes
no_sha s = s

abbrev pub no_archive : Bytes → Option Archive
no_archive b = none

abbrev pub no_image : Bytes → List (Bytes × Bytes) → Bytes
no_image label files = label

abbrev pub no_qemu_img : Bytes → Bytes → Bytes → Bytes → Disk → Bool × Disk
no_qemu_img img fmt base overlay d = (false, d)

-- The same with free ports and a base image
abbrev pub free_world : World
free_world = record world { can_listen = λ a. true }

abbrev pub base_disk : Disk
base_disk p = if p ≟ codes "/r" then some (file (b'Q' ∷ b'F' ∷ b'I' ∷ 251 ∷ [])) else none

abbrev pub qemu_img : Bytes → Bytes → Bytes → Bytes → Disk → Bool × Disk
qemu_img img fmt base overlay d = (true, write_file overlay fmt d)
