-- ===== src/Cli/Forwarding.antt =====
-- From the flags --port of a command line to the arguments of QEMU.
use dvm.Base.{Bytes, codes, Bool, Option, none}
use dvm.Base.{List, ◌++◌, map, ok, ◌≡◌}
use dvm.Cache.Disk.{Disk}
use dvm.Config.{Config, load_config}
use dvm.Qemu.{Archive, PortForward}
use dvm.Vm.{launching}
use dvm.App.{App, pick, pick_int, forward, ssh_forward, loopback}
use dvm.App.Merging.{parsed}
use dvm.App.Launching.{RunsWith}
use dvm.Cli.Commands.{Parsed}
use dvm.Cli.Arguments.{parse_args}
use dvm.Cli.Table.{unset, flag_table}
use dvm.Cli.Main.{Machine}
use dvm.Cli.Spelling.{Setting, write_args}
use dvm.Cli.Repeated.{values_of}

-- The forwards for the ports of a configuration file and of the command line
unfoldable pub forwards_of : Config → Parsed → List Bytes → List PortForward
forwards_of file p ports =
    let bind = pick (pick p.flags.bind_address file.network.bind_address) loopback in
    map (forward bind) (file.ports ++ parsed ports)
    ++ ssh_forward bind (pick_int p.flags.ssh_port file.network.ssh_port)

module _ (sha : Bytes → Bytes) (open_archive : Bytes → Option Archive)
    (encode : Bytes → List (Bytes × Bytes) → Bytes) (blank : Bytes)
    (qemu_img : Bytes → Bytes → Bytes → Bytes → Disk → Bool × Disk) where
  -- What was asked of QEMU for a command line
  abbrev pub IsForwarded : Machine → List (Setting Parsed) → Type 0
  IsForwarded m ss =
      (p : Parsed) × (file : Config) × (parse_args (flag_table (codes "start")) none (write_args ss)
          unset
        ≡ ok p)
      × (load_config m.vz.world.host m.unmarshal p.flags.config_path ≡ ok file)
      × RunsWith (launching m.vz.world.site) (forwards_of file p (values_of (codes "port") ss))
