-- ===== src/Vm/Samples.antt =====
-- Test data: a base image, a qemu-img that writes its format, and a QEMU that runs with software
-- emulation only.
use dvm.Base.{Bool, true}
use dvm.Base.{pos, Bytes, codes, ◌≟◌, none, some, List, []}
use dvm.Base.{◌∷◌, if◌then◌else◌}
use dvm.Cache.Disk.{Disk, file, write_file}
use dvm.Qemu.{Spec, user_net}
use dvm.Vm.Start.{Launch, not_started, exited, running}

-- A base image that begins with the magic of qcow2, and a qemu-img that writes its format.
abbrev pub base_disk : Disk
base_disk p = if p ≟ codes "base" then some (file (b'Q' ∷ b'F' ∷ b'I' ∷ 251 ∷ 0 ∷ [])) else none

abbrev pub qemu_img : Bytes → Bytes → Bytes → Bytes → Disk → Bool × Disk
qemu_img img fmt base overlay d = (true, write_file overlay fmt d)

abbrev pub spec : Spec
spec = record {
  qemu_bin = codes "/q/qemu-system-x86_64";
  guest_arch = codes "x86_64";
  memory_mb = pos 2048;
  cpus = pos 2;
  accel = [];
  kernel_path = codes "/k";
  initrd_path = codes "/i";
  kernel_cmdline = [];
  extra_cmdline = [];
  drive_path = codes "/s.qcow2";
  seed_path = [];
  net = some user_net;
  ports = [];
  serial_control = record { net = codes "unix"; addr = [] };
  qmp_control = record { net = codes "unix"; addr = [] };
  display = codes "none";
  extra_args = [];
}

-- QEMU runs with software emulation only.
abbrev pub start : List Bytes → Launch
start [] = not_started
start (option ∷ []) = not_started
start (option ∷ machine ∷ rest) = if machine ≟ codes "q35,accel=tcg" then running else exited
