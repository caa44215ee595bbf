-- ===== src/App/Flags.antt =====
-- internal/app/app.go: the flags and how they are laid over the configuration.
use dvm.Base.{Bytes, is_empty, Bool, false, List, [], ◌∷◌, ◌++◌, ℤ, pos, ltb_int}
use dvm.Base.{if◌then◌else◌, Result, ok, err}
use dvm.Config.{Components, Guest, Network, Port, Seed, Config, PortError, parse_port_spec}

-- The empty text and the number zero mean that a flag is not set.
pub record Flags : Type 0 where
  pub config_path : Bytes
  pub data_dir : Bytes
  pub cache_dir : Bytes
  pub engine : Bytes
  pub kernel : Bytes
  pub initrd : Bytes
  pub rootfs : Bytes
  pub rootfs_vz : Bytes
  pub qemu_dir : Bytes
  pub guest_arch : Bytes
  pub kernel_cmdline : Bytes
  pub memory_mb : ℤ
  pub cpus : ℤ
  pub ports : List Bytes
  pub ip_config : Bytes
  pub bind_address : Bytes
  pub ssh_port : ℤ
  pub no_persist : Bool
  pub reset : Bool
  pub accel_fallback : Bool
  pub headless : Bool
  pub debug : Bool
  pub qemu_args : List Bytes
  pub console : Bool
  pub guest_password : Bytes
  pub ssh_key_path : Bytes
  pub seed_path : Bytes

-- `if f != "" { c = f }`
abbrev pub pick : Bytes → Bytes → Bytes
pick f c = if is_empty f then c else f

-- `if f > 0 { c = f }`
abbrev pub pick_int : ℤ → ℤ → ℤ
pick_int f c = if ltb_int (pos 0) f then f else c

unfoldable pub merge_components : Components → Flags → Components
merge_components c f = record {
  kernel = pick f.kernel c.kernel;
  initrd = pick f.initrd c.initrd;
  rootfs = pick f.rootfs c.rootfs;
  rootfs_vz = pick f.rootfs_vz c.rootfs_vz;
  qemu_dir = pick f.qemu_dir c.qemu_dir;
}

unfoldable pub merge_guest : Guest → Flags → Guest
merge_guest c f = record {
  arch = pick f.guest_arch c.arch;
  memory_mb = pick_int f.memory_mb c.memory_mb;
  cpus = pick_int f.cpus c.cpus;
  kernel_cmdline = pick f.kernel_cmdline c.kernel_cmdline;
  persist = if f.no_persist then false else c.persist;
}

unfoldable pub merge_network : Network → Flags → Network
merge_network c f = record {
  ip_config = pick f.ip_config c.ip_config;
  bind_address = pick f.bind_address c.bind_address;
  allow_public_bind = c.allow_public_bind;
  ssh_port = pick_int f.ssh_port c.ssh_port;
}

unfoldable pub merge_seed : Seed → Flags → Seed
merge_seed c f = record {
  enabled = c.enabled;
  username = c.username;
  password = pick f.guest_password c.password;
  ssh_key = pick f.ssh_key_path c.ssh_key;
  path = pick f.seed_path c.path;
}

abbrev pub append_parsed : List Port → Result PortError Port → List Port
append_parsed ports (ok p) = ports ++ (p ∷ [])
append_parsed ports (err e) = ports

-- The loop over --port: a forward that cannot be read is passed over.
unfoldable pub merge_ports : List Port → List Bytes → List Port
merge_ports ports [] = ports
merge_ports ports (spec ∷ specs) = merge_ports (append_parsed ports (parse_port_spec spec)) specs

-- `mergeFlags`
unfoldable pub merge_flags : Config → Flags → Config
unfolding merge_components merge_guest merge_network merge_seed
merge_flags c f = record c {
  components = merge_components c.components f;
  guest = merge_guest c.guest f;
  qemu = record (c.qemu) { accel_fallback = f.accel_fallback };
  network = merge_network c.network f;
  ports = merge_ports c.ports f.ports;
  seed = merge_seed c.seed f;
}
