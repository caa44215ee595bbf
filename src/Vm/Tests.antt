-- ===== src/Vm/Tests.antt =====
-- Tests of internal/vm, and its theorems at concrete inputs.
use dvm.Base.{
  ℕ, zero, suc, ℤ, pos, negsuc, Bytes, codes, ◌≟◌, ≟_iff, Bool, true, false, not, ◌||◌, Option,
  none, some, List, [],
}
use dvm.Base.{
  ◌∷◌, ◌++◌, Result, ok, ◌≡◌, ◌⊎◌, inl, inr, refl, All, if◌then◌else◌, atoi, itoa, trim_space,
}
use dvm.Base.FilePath.{join_path}
use dvm.Vm.State.{lock_path, read_pid, pid_line, already_running, LockHost, acquire_lock, try_lock}
use dvm.Vm.Overlay.{
  disk_format, prepare_disk, create_overlay, run_create, create_after, remove_overlay,
}
use dvm.Base.{List, []}
use dvm.Qemu.{Spec, user_net}
use dvm.Vm.Start.{Launch, not_started, exited, running, start_with_fallback}
use dvm.Base.{Bool, Option}
use dvm.Vm.State.{already_running}
use dvm.Base.{subst, sym}
use dvm.Vm.Runs.{World}
use dvm.Vm.Samples.{base_disk, qemu_img, spec, start}

-- A system on which only the process 41 lives.
abbrev lock_host : LockHost
lock_host = record {
  can_create = true;
  can_read = true;
  can_remove = true;
  alive = λ pid. elim pid [ pos n ↦ itoa (pos n) ≟ codes "41" | negsuc n ↦ false ];
}

lock_of_41 : lock_path (codes "/s") ≡ codes "/s/lock"
unfolding lock_path join_path dvm.Base.join dvm.Base.split ◌≟◌
lock_of_41 = refl

taken : (acquire_lock lock_host (pos 41) none).0 ≡ ok tt
unfolding acquire_lock try_lock
taken = refl

reclaimed : acquire_lock lock_host (pos 41) (some (codes "12\n")) ≡ (ok tt, some (codes "41\n"))
unfolding acquire_lock try_lock read_pid atoi trim_space ◌≟◌ itoa pid_line
reclaimed = refl

prepared :
    (prepare_disk qemu_img true true true
      (codes "qemu-img")
      (codes "base")
      (codes "over")
      base_disk).0
    ≡ ok tt
unfolding prepare_disk create_after remove_overlay ◌≟◌ create_overlay run_create disk_format
prepared = refl

falls_back : start_with_fallback start spec (codes "kvm" ∷ codes "tcg" ∷ []) ≡ ok (codes "tcg")
unfolding start_with_fallback dvm.Vm.Start.try_accels dvm.Vm.Start.candidates_or dvm.Qemu.build_args
    dvm.Qemu.all_args dvm.Qemu.machine_args ◌≟◌ dvm.Qemu.arch_params
falls_back = refl

-- The process 41 takes over a stale lock, and 42 is denied.
abbrev live : ℤ → Bool
live = lock_host.alive

abbrev stale : Option Bytes
stale = some (codes "12\n")

abbrev fresh : World
fresh = record { lock = stale; alive = live; holders = [] }

abbrev locked : World
locked = record fresh { lock = (acquire_lock lock_host (pos 41) stale).1; holders = 41 ∷ [] }

abbrev still_locked : World
still_locked = record locked { lock = (acquire_lock lock_host (pos 42) locked.lock).1 }
