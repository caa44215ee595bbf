-- ===== src/Qemu/Tests.antt =====
-- Tests of internal/qemu, and its theorems at concrete inputs.
use dvm.Base.{◌≟◌, ◌↔◌}
use dvm.Base.{Bytes, codes, ◌≟◌, itoa, pos, true, none, some}
use dvm.Base.{List, [], ◌∷◌, Elem, IsNodup, ok, ◌≡◌, ◌≢◌, ◌↔◌}
use dvm.Base.{refl, join}
use dvm.Samples.{linux_host}
use dvm.Qemu.Accel.{tcg, accel_available, is_seen, is_skipped, collect_accels}
use dvm.Qemu.Accel.{accel_candidates}
use dvm.Qemu.Network.{PortForward, user_net, hostfwd}
use dvm.Qemu.Control.{ControlAddr}
use dvm.Qemu.Command.{Spec, kernel_cmdline_string, all_args, build_args}
use dvm.Qemu.Monitor.{Response, Link}
use dvm.Qemu.Candidates.{accel_candidates_lem}

abbrev preference : List Bytes
preference = codes "kvm" ∷ codes "hvf" ∷ codes "kvm" ∷ []

kvm_then_tcg : accel_candidates linux_host preference ≡ codes "kvm" ∷ tcg ∷ []
unfolding accel_candidates collect_accels is_skipped is_seen accel_available ◌≟◌
kvm_then_tcg = refl

accel_candidates_lem_example :
    IsNodup (accel_candidates linux_host preference)
    × Elem tcg (accel_candidates linux_host preference)
    × ((a : Bytes)
        → a ≢ tcg
        → Elem a (accel_candidates linux_host preference)
          ↔ (Elem a preference × (accel_available linux_host a ≡ true)))
accel_candidates_lem_example = accel_candidates_lem linux_host preference

abbrev ssh : PortForward
ssh = record { proto = codes "tcp"; host_ip = []; host_port = pos 2222; guest_port = pos 22 }

ssh_forward : hostfwd ssh ≡ codes "hostfwd=tcp:127.0.0.1:2222-:22"
unfolding hostfwd itoa
ssh_forward = refl

abbrev unix : Bytes → ControlAddr
unix p = record { net = codes "unix"; addr = p }

abbrev arm_spec : Spec
arm_spec = record {
  qemu_bin = codes "/q/qemu-system-aarch64";
  guest_arch = codes "arm64";
  memory_mb = pos 2048;
  cpus = pos 2;
  accel = codes "hvf";
  kernel_path = codes "/k";
  initrd_path = codes "/i";
  kernel_cmdline = [];
  extra_cmdline = codes "ip=dhcp" ∷ [];
  drive_path = codes "/s.qcow2";
  seed_path = codes "/seed.img";
  net = some user_net;
  ports = ssh ∷ [];
  serial_control = unix (codes "/s.sock");
  qmp_control = unix (codes "/q.sock");
  display = [];
  extra_args = [];
}

arm_cmdline : kernel_cmdline_string arm_spec ≡ codes "console=ttyAMA0 root=/dev/vda1 rw ip=dhcp"
unfolding kernel_cmdline_string ◌≟◌ join
arm_cmdline = refl

arm_args : build_args arm_spec ≡ ok (all_args arm_spec user_net)
unfolding build_args
arm_args = refl

abbrev resumed : Response
resumed = record { result = []; error = none; event = codes "RESUME" }

abbrev done : Response
done = record { result = codes "{}"; error = none; event = [] }

abbrev link : List Response → Link
link rs = record { sent = []; incoming = rs; writable = true }
