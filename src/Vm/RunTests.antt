-- ===== src/Vm/RunTests.antt =====
-- A run of a machine, and the theorems on runs at it.
use dvm.Base.{
  ℕ, zero, suc, ℤ, pos, negsuc, Bytes, codes, ◌≟◌, ≟_iff, Bool, true, false, not, ◌||◌, Option,
  none, some, List, [],
}
use dvm.Base.{
  ◌∷◌, ◌++◌, Result, ok, err, ◌≡◌, ◌↔◌, ◌⊎◌, inl, inr, refl, All, if◌then◌else◌, arith, atoi, itoa,
  trim_space,
}
use dvm.Base.FilePath.{join_path}
use dvm.Cache.Disk.{write_file}
use dvm.Vm.Overlay.{
  disk_format, prepare_disk, create_overlay, run_create, create_after, remove_overlay,
}
use dvm.Base.{List, []}
use dvm.Qemu.{Spec, user_net}
use dvm.Vm.Start.{Launch, Process, launch_of, not_started, exited, running, start_with_fallback}
use dvm.Base.{Bool, Option}
use dvm.Base.{subst, sym}
use dvm.Vm.Cleanup.{HadDisk, run-overlay_path}
use dvm.Vm.Run.{Site, Options, run}
use dvm.Vm.State.{overlay_path}
use dvm.Vm.Stop.{signalled}
use dvm.Vm.Samples.{base_disk, qemu_img, spec, start}
use dvm.Vm.Run.{prepare_seed}

-- A process that comes to this
abbrev process_of : Launch → Process
process_of not_started = record { has_log = false; is_started = true; exits_early = false }
process_of exited = record { has_log = true; is_started = true; exits_early = true }
process_of running = record { has_log = true; is_started = true; exits_early = false }

-- A whole run: QEMU runs with software emulation, is interrupted, and stops in time.
abbrev site : Site
site = record {
  windows = false;
  listeners = (none, none);
  overlay_removable = true;
  overlay_removable_after = true;
  pid_removable = true;
  pid_writable = true;
  serial_writable = true;
  seed_io = record { create_ok = true; format_ok = true; write_ok = λ n. true };
  process = λ args. process_of (start args);
  launch_writes = λ d. d;
  pid = pos 77;
  guest_writes = λ d. d;
  qmp = none;
  terminal = record {
    serial_rounds = [];
    probe_rounds = [];
    keys = [];
    is_terminal = true;
    can_raw = true;
    screen = record { raw = false; mirrored = false };
  };
  guest = record { ending = signalled; stops_in_time = true; stops_on_terminate = true };
}

abbrev options : Options
options = record {
  dir = codes "/s";
  qemu_bin = codes "/q";
  qemu_img = codes "/qi";
  spec = spec;
  accel_candidates = codes "kvm" ∷ codes "tcg" ∷ [];
  base_rootfs = codes "base";
  persist = false;
  reset = false;
  seed = none;
  seed_image = [];
  front = record { console = false; detach_key = 0; readiness = []; services = [] };
}

abbrev no_sha : Bytes → Bytes
no_sha s = s

abbrev no_image : Bytes → List (Bytes × Bytes) → Bytes
no_image label files = label

whole_run : (run no_sha no_image [] qemu_img site options base_disk).0 ≡ ok tt
unfolding run prepare_disk ◌≟◌ join_path dvm.Vm.Run.with_disk create_after remove_overlay
    overlay_path dvm.Base.join create_overlay run_create disk_format dvm.Vm.Run.drop_overlay
    dvm.Vm.Run.with_seed dvm.Vm.Run.prepare_seed dvm.Vm.Run.with_channels
    dvm.Vm.Run.control_channels dvm.Vm.Run.launched start_with_fallback dvm.Vm.Start.try_accels
    dvm.Vm.Start.candidates_or dvm.Base.FilePath.clean dvm.Base.split dvm.Qemu.all_args
    dvm.Qemu.arch_params dvm.Qemu.build_args dvm.Qemu.machine_args dvm.Vm.Run.after_start
    dvm.Vm.Run.full_spec dvm.Vm.Run.unix_channels dvm.Vm.Stop.supervise dvm.Vm.Stop.after_ending
    write_file dvm.Vm.Foreground.foreground launch_of
whole_run = refl

run-overlay_path_example :
    (run no_sha no_image [] qemu_img site options base_disk).1 (overlay_path (codes "/s")) ≡ none
run-overlay_path_example =
    run-overlay_path no_sha no_image [] qemu_img site options base_disk refl refl
      (subst HadDisk (sym whole_run) tt)
