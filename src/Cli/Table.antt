-- ===== src/Cli/Table.antt =====
-- cmd/dvm/main.go: the flags that `runCommand` declares, in its order.
use dvm.Base.{ℤ, pos, Bytes, codes, ◌≟◌, Bool, true, false, List, [], ◌∷◌, ◌++◌, if◌then◌else◌}
use dvm.App.Flags.{Flags}
use dvm.Cli.Commands.{Parsed}
use dvm.Cli.Arguments.{Setter, text, number, switch}

-- The variables before `fs.Parse`, with the defaults of the flags. The flag for the fallback is set
-- behind the parser.
abbrev pub unset : Parsed
unset = record {
  flags = record {
    config_path = [];
    data_dir = [];
    cache_dir = [];
    engine = codes "auto";
    kernel = [];
    initrd = [];
    rootfs = [];
    rootfs_vz = [];
    qemu_dir = [];
    guest_arch = [];
    kernel_cmdline = [];
    memory_mb = pos 0;
    cpus = pos 0;
    ports = [];
    ip_config = [];
    bind_address = [];
    ssh_port = pos 0;
    no_persist = false;
    reset = false;
    accel_fallback = false;
    headless = true;
    debug = false;
    qemu_args = [];
    console = false;
    guest_password = [];
    ssh_key_path = [];
    seed_path = [];
  };
  ports = [];
  qemu_args = [];
  no_accel_fallback = false;
  with_state = false;
}

-- fs.StringVar, fs.IntVar and fs.BoolVar on a field of the flags
abbrev pub text_flag : (Bytes → Flags → Flags) → Setter Parsed
text_flag set = text λ v p. record p { flags = set v p.flags }

abbrev pub number_flag : (ℤ → Flags → Flags) → Setter Parsed
number_flag set = number λ v p. record p { flags = set v p.flags }

abbrev pub switch_flag : (Bool → Flags → Flags) → Setter Parsed
switch_flag set = switch λ v p. record p { flags = set v p.flags }

abbrev pub add_port : Bytes → Parsed → Parsed
add_port v p = record p { ports = p.ports ++ (v ∷ []) }

abbrev pub add_qemu_arg : Bytes → Parsed → Parsed
add_qemu_arg v p = record p { qemu_args = p.qemu_args ++ (v ∷ []) }

unfoldable pub common_flags : List (Bytes × Setter Parsed)
common_flags =
    (codes "config", text_flag λ v f. record f { config_path = v })
    ∷ (codes "data-dir", text_flag λ v f. record f { data_dir = v })
    ∷ (codes "cache-dir", text_flag λ v f. record f { cache_dir = v })
    ∷ (codes "engine", text_flag λ v f. record f { engine = v })
    ∷ (codes "kernel", text_flag λ v f. record f { kernel = v })
    ∷ (codes "initrd", text_flag λ v f. record f { initrd = v })
    ∷ (codes "rootfs", text_flag λ v f. record f { rootfs = v })
    ∷ (codes "rootfs-vz", text_flag λ v f. record f { rootfs_vz = v })
    ∷ (codes "qemu-dir", text_flag λ v f. record f { qemu_dir = v })
    ∷ (codes "guest-arch", text_flag λ v f. record f { guest_arch = v })
    ∷ (codes "kernel-cmdline", text_flag λ v f. record f { kernel_cmdline = v })
    ∷ (codes "memory", number_flag λ v f. record f { memory_mb = v })
    ∷ (codes "cpus", number_flag λ v f. record f { cpus = v })
    ∷ (codes "port", text add_port)
    ∷ (codes "ip-config", text_flag λ v f. record f { ip_config = v })
    ∷ (codes "bind-address", text_flag λ v f. record f { bind_address = v })
    ∷ (codes "ssh-port", number_flag λ v f. record f { ssh_port = v })
    ∷ (codes "no-persist", switch_flag λ v f. record f { no_persist = v })
    ∷ (codes "reset", switch_flag λ v f. record f { reset = v })
    ∷ (codes "no-accel-fallback", switch λ v p. record p { no_accel_fallback = v })
    ∷ (codes "headless", switch_flag λ v f. record f { headless = v })
    ∷ (codes "debug", switch_flag λ v f. record f { debug = v })
    ∷ (codes "qemu-arg", text add_qemu_arg)
    ∷ (codes "console", switch_flag λ v f. record f { console = v })
    ∷ (codes "guest-password", text_flag λ v f. record f { guest_password = v })
    ∷ (codes "ssh-key", text_flag λ v f. record f { ssh_key_path = v })
    ∷ (codes "seed", text_flag λ v f. record f { seed_path = v })
    ∷ []

-- A flag of `clean` alone
abbrev pub clean_flags : List (Bytes × Setter Parsed)
clean_flags = (codes "with-state", switch λ v p. record p { with_state = v }) ∷ []

unfoldable pub flag_table : Bytes → List (Bytes × Setter Parsed)
flag_table command = if command ≟ codes "clean" then common_flags ++ clean_flags else common_flags
