-- ===== src/App/Tests.antt =====
-- Tests of internal/app/app.go, and its theorems at concrete inputs.
use dvm.Base.{ℕ, Bytes, codes, ◌≟◌, is_empty, pos, Bool, true, false, Option, none, some, List, []}
use dvm.Base.{
  ◌∷◌, ◌++◌, Result, ok, err, ◌≡◌, ◌⊎◌, ◌↔◌, inl, inr, refl, itoa, atoi, contains, has_prefix,
  last_index, cut, trim_space, scan,
}
use dvm.Samples.{linux_host}
use dvm.Config.{
  Config, default_config, mode_valid, first_file, read_config_source, check_ports, split_protocol,
  parse_pair, parse_port, Unmarshal, load_config, resolve_config_path, validate, Port,
  parse_port_spec,
}
use dvm.Config.Valid.{IsValid}
use dvm.App.Flags.{Flags, merge_ports, merge_flags}
use dvm.App.Create.{App, new_app, build_app}
use dvm.App.Forwards.{service_lines, readiness_guest_ports, host_to_guest}
use dvm.App.Engine.{vz_rootfs_configured, resolve_engine}
use dvm.App.Merging.{parsed, IsEngine, new_app-IsValid, new_app-qemu_args}

-- A configuration file that turns the fallback off and forwards two ports.
abbrev lab : Config
unfolding default_config
lab = record default_config {
  ports =
      record { name = codes "web"; protocol = []; host = pos 8080; guest = pos 80; url = [] }
      ∷ record { name = []; protocol = []; host = pos 9090; guest = pos 90; url = [] }
      ∷ [];
  qemu = record (default_config.qemu) { accel_fallback = false };
  readiness = record { tcp_ports = pos 8080 ∷ pos 22 ∷ []; timeout_seconds = pos 180 };
}

abbrev yaml : Unmarshal
yaml text c = some lab

abbrev flags : Flags
flags = record {
  config_path = [];
  data_dir = [];
  cache_dir = [];
  engine = [];
  kernel = codes "./k";
  initrd = codes "./i";
  rootfs = codes "disk.IMG";
  rootfs_vz = [];
  qemu_dir = [];
  guest_arch = [];
  kernel_cmdline = [];
  memory_mb = pos 0;
  cpus = pos 4;
  ports = codes "2222:22" ∷ codes "oops" ∷ [];
  ip_config = [];
  bind_address = [];
  ssh_port = pos 0;
  no_persist = false;
  reset = false;
  accel_fallback = true;
  headless = true;
  debug = false;
  qemu_args = codes "-nodefaults" ∷ [];
  console = false;
  guest_password = [];
  ssh_key_path = [];
  seed_path = [];
}

one_port_read :
    parsed flags.ports
    ≡ record { name = []; protocol = codes "tcp"; host = pos 2222; guest = pos 22; url = [] } ∷ []
unfolding parse_port_spec ◌≟◌ dvm.Config.split_protocol dvm.Base.last_index dvm.Config.parse_pair
    dvm.Base.cut dvm.Config.parse_port atoi dvm.Base.trim_space
one_port_read = refl

abbrev the_app : App
the_app = build_app linux_host flags lab

created : new_app linux_host yaml flags ≡ ok the_app
unfolding new_app load_config resolve_config_path first_file read_config_source has_prefix validate
    mode_valid merge_flags default_config check_ports merge_ports parse_port_spec split_protocol
    parse_pair parse_port last_index cut atoi trim_space scan ◌≟◌
created = refl

new_app-IsValid_example :
    IsValid the_app.cfg
    × IsEngine the_app.engine
    × ((file : Config) × (load_config linux_host yaml flags.config_path ≡ ok file)
        × (the_app.cfg ≡ merge_flags file flags))
new_app-IsValid_example = new_app-IsValid linux_host yaml flags created

new_app-qemu_args_example :
    new_app linux_host yaml (record flags { qemu_args = []; headless = false })
    ≡ new_app linux_host yaml flags
new_app-qemu_args_example = new_app-qemu_args linux_host yaml flags [] false

guest_ports : readiness_guest_ports lab ≡ pos 80 ∷ pos 22 ∷ []
unfolding readiness_guest_ports default_config host_to_guest
guest_ports = refl

lines :
    service_lines lab
    ≡ codes "web: 127.0.0.1:8080 -> guest 80" ∷ codes "port-9090: 127.0.0.1:9090 -> guest 90" ∷ []
unfolding service_lines default_config itoa
lines = refl

picks_vz : resolve_engine true the_app ≡ codes "vz"
unfolding resolve_engine ◌≟◌ vz_rootfs_configured merge_flags lab contains dvm.Base.to_lower
    dvm.Base.has_suffix
picks_vz = refl
