-- ===== src/Qemu/Command.antt =====
-- internal/qemu/command.go: the arguments of QEMU from a resolved specification.
use dvm.Base.{Bytes, codes, ◌≟◌, is_empty, join, itoa, ℤ, Bool, not, ◌||◌}
use dvm.Base.{Option, List, [], ◌∷◌, ◌++◌, if◌then◌else◌, Result, ok, guard, need}
use dvm.Base.{◌>>=◌, ◌>>◌, err}
use dvm.Qemu.Network.{PortForward, Backend}
use dvm.Qemu.Control.{ControlAddr, qmp_arg, serial_chardev_arg}

abbrev pub is_arm : Bytes → Bool
is_arm arch = arch ≟ codes "arm64" || arch ≟ codes "aarch64"

-- `SystemBinaryName`
unfoldable pub system_binary_name : Bytes → Bytes
system_binary_name arch =
    if is_arm arch then codes "qemu-system-aarch64" else codes "qemu-system-x86_64"

abbrev pub is_passthrough : Bytes → Bool
is_passthrough accel = accel ≟ codes "hvf" || accel ≟ codes "kvm"

-- `x86CPUModel`
unfoldable pub x86_cpu_model : Bytes → Bytes
x86_cpu_model accel =
    if is_passthrough accel
    then codes "host"
    else if accel ≟ codes "whpx"
    then codes "qemu64"
    else codes "max"

pub record ArchParams : Type 0 where
  pub machine : Bytes
  pub cpu : Bytes
  pub console : Bytes
  pub root_dev : Bytes

abbrev with_accel : Bytes → Bytes → Bytes
with_accel machine accel = if is_empty accel then machine else machine ++ (codes ",accel=" ++ accel)

-- `archParams`
unfoldable pub arch_params : Bytes → Bytes → ArchParams
unfolding x86_cpu_model
arch_params arch accel =
    if is_arm arch
    then record {
      machine = with_accel (codes "virt") accel;
      cpu = if is_passthrough accel then codes "host" else codes "max";
      console = codes "ttyAMA0";
      root_dev = codes "/dev/vda1";
    }
    else record {
      machine = with_accel (codes "q35") accel;
      cpu = x86_cpu_model accel;
      console = codes "ttyS0";
      root_dev = codes "/dev/vda1";
    }

pub record Spec : Type 0 where
  pub qemu_bin : Bytes
  pub guest_arch : Bytes
  pub memory_mb : ℤ
  pub cpus : ℤ
  pub accel : Bytes
  pub kernel_path : Bytes
  pub initrd_path : Bytes
  pub kernel_cmdline : Bytes
  pub extra_cmdline : List Bytes
  pub drive_path : Bytes
  pub seed_path : Bytes
  pub net : Option Backend
  pub ports : List PortForward
  pub serial_control : ControlAddr
  pub qmp_control : ControlAddr
  pub display : Bytes
  pub extra_args : List Bytes

-- "console=%s root=%s rw" unless a command line is given
unfoldable pub base_cmdline : Spec → Bytes
unfolding arch_params
base_cmdline s =
    if is_empty s.kernel_cmdline
    then codes "console="
      ++ ((arch_params s.guest_arch s.accel).console
          ++ (codes " root=" ++ ((arch_params s.guest_arch s.accel).root_dev ++ codes " rw")))
    else s.kernel_cmdline

with_fragments : Bytes → List Bytes → Bytes
with_fragments cmd [] = cmd
with_fragments cmd (f ∷ fs) = cmd ++ (b' ' ∷ join (f ∷ fs) (codes " "))

-- `KernelCmdlineString`
unfoldable pub kernel_cmdline_string : Spec → Bytes
unfolding base_cmdline with_fragments
kernel_cmdline_string s = with_fragments (base_cmdline s) s.extra_cmdline

pub data BuildError : Type 0 where
  no_qemu_bin : BuildError
  missing_paths : BuildError
  no_network : BuildError

abbrev pub drive : Bytes → Bytes → List Bytes
drive path format =
    codes "-drive" ∷ (codes "file=" ++ (path ++ (codes ",if=virtio,format=" ++ format))) ∷ []

unfoldable pub machine_args : Spec → List Bytes
machine_args s =
    codes "-machine"
    ∷ (arch_params s.guest_arch s.accel).machine
    ∷ codes "-cpu"
    ∷ (arch_params s.guest_arch s.accel).cpu
    ∷ codes "-smp"
    ∷ itoa s.cpus
    ∷ codes "-m"
    ∷ itoa s.memory_mb
    ∷ codes "-kernel"
    ∷ s.kernel_path
    ∷ codes "-initrd"
    ∷ s.initrd_path
    ∷ codes "-append"
    ∷ kernel_cmdline_string s
    ∷ drive s.drive_path (codes "qcow2")

unfoldable pub seed_args : Spec → List Bytes
seed_args s = if is_empty s.seed_path then [] else drive s.seed_path (codes "raw")

unfoldable pub display_args : Spec → List Bytes
display_args s = codes "-display" ∷ (if is_empty s.display then codes "none" else s.display) ∷ []

unfoldable pub serial_args : Spec → List Bytes
serial_args s =
    if is_empty s.serial_control.addr
    then codes "-serial" ∷ codes "null" ∷ []
    else codes "-chardev"
      ∷ serial_chardev_arg s.serial_control (codes "ser0")
      ∷ codes "-serial"
      ∷ codes "chardev:ser0"
      ∷ []

unfoldable pub qmp_args : Spec → List Bytes
qmp_args s = if is_empty s.qmp_control.addr then [] else codes "-qmp" ∷ qmp_arg s.qmp_control ∷ []

-- The argument list is appended to in this order.
unfoldable pub all_args : Spec → Backend → List Bytes
all_args s net =
    machine_args s
    ++ (seed_args s
        ++ (net.nic_args s.ports
            ++ (display_args s ++ (serial_args s ++ (qmp_args s ++ s.extra_args)))))

-- `BuildArgs`
unfoldable pub build_args : Spec → Result BuildError (List Bytes)
build_args s = do
  guard (not (is_empty s.qemu_bin)) no_qemu_bin
  guard (not (is_empty s.kernel_path || is_empty s.initrd_path || is_empty s.drive_path))
      missing_paths
  net ← need no_network s.net
  ok (all_args s net)

unfoldable pub command_text : Bytes → Result BuildError (List Bytes) → (BuildError → Bytes) → Bytes
command_text bin (err e) text = bin ++ (codes " <invalid: " ++ (text e ++ codes ">"))
command_text bin (ok args) text = bin ++ (b' ' ∷ join args (codes " "))

-- `String`, with the texts of the errors
unfoldable pub spec_string : (BuildError → Bytes) → Spec → Bytes
spec_string text s = command_text s.qemu_bin (build_args s) text
