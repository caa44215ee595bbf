-- ===== src/Config/Defs.antt =====
-- The structs of internal/app/config.go and the built-in defaults.
use dvm.Base.{Bytes, codes, Bool, true, false, List, [], ◌∷◌, ◌≟◌, ◌||◌, ℤ, pos}

-- `IPConfigMode` is a string type.
abbrev pub IpConfigMode : Type 0
IpConfigMode = Bytes

abbrev pub ip_cloud_init : IpConfigMode
ip_cloud_init = codes "cloud-init"

abbrev pub ip_kernel_dhcp : IpConfigMode
ip_kernel_dhcp = codes "kernel-dhcp"

abbrev pub ip_kernel_static : IpConfigMode
ip_kernel_static = codes "kernel-static"

abbrev pub ip_none : IpConfigMode
ip_none = codes "none"

-- `Valid`
unfoldable pub mode_valid : IpConfigMode → Bool
mode_valid m = m ≟ ip_cloud_init || m ≟ ip_kernel_dhcp || m ≟ ip_kernel_static || m ≟ ip_none

pub record Components : Type 0 where
  pub kernel : Bytes
  pub initrd : Bytes
  pub rootfs : Bytes
  pub rootfs_vz : Bytes
  pub qemu_dir : Bytes

pub record Guest : Type 0 where
  pub arch : Bytes
  pub memory_mb : ℤ
  pub cpus : ℤ
  pub kernel_cmdline : Bytes
  pub persist : Bool

pub record QemuConf : Type 0 where
  pub display : Bytes
  pub accel_pref : List (Bytes × List Bytes)
  pub accel_fallback : Bool
  pub extra_args : List Bytes

pub record Network : Type 0 where
  pub ip_config : IpConfigMode
  pub bind_address : Bytes
  pub allow_public_bind : Bool
  pub ssh_port : ℤ

pub record Port : Type 0 where
  pub name : Bytes
  pub protocol : Bytes
  pub host : ℤ
  pub guest : ℤ
  pub url : Bytes

pub record Readiness : Type 0 where
  pub tcp_ports : List ℤ
  pub timeout_seconds : ℤ

pub record Seed : Type 0 where
  pub enabled : Bool
  pub username : Bytes
  pub password : Bytes
  pub ssh_key : Bytes
  pub path : Bytes

pub record Config : Type 0 where
  pub name : Bytes
  pub components : Components
  pub guest : Guest
  pub qemu : QemuConf
  pub network : Network
  pub ports : List Port
  pub readiness : Readiness
  pub seed : Seed

-- `Default`
unfoldable pub default_config : Config
default_config = record {
  name = codes "dvm";
  components = record { kernel = []; initrd = []; rootfs = []; rootfs_vz = []; qemu_dir = [] };
  guest = record {
    arch = [];
    memory_mb = pos 2048;
    cpus = pos 2;
    kernel_cmdline = [];
    persist = true;
  };
  qemu = record {
    display = codes "none";
    accel_pref =
        (codes "windows", codes "whpx" ∷ codes "tcg" ∷ [])
        ∷ (codes "linux", codes "kvm" ∷ codes "tcg" ∷ [])
        ∷ (codes "darwin", codes "hvf" ∷ codes "tcg" ∷ [])
        ∷ [];
    accel_fallback = true;
    extra_args = [];
  };
  network = record {
    ip_config = ip_cloud_init;
    bind_address = codes "127.0.0.1";
    allow_public_bind = false;
    ssh_port = pos 0;
  };
  ports = [];
  readiness = record { tcp_ports = []; timeout_seconds = pos 180 };
  seed = record {
    enabled = true;
    username = codes "ubuntu";
    password = [];
    ssh_key = [];
    path = [];
  };
}
