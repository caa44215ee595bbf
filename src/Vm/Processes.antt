-- ===== src/Vm/Processes.antt =====
-- internal/vm/proc_unix.go and proc_windows.go: `processAlive` and `terminate`; accelhint_linux.go,
-- accelhint_darwin.go and accelhint_windows.go: `accelHint`; console_windows.go and console_other.go:
-- `enableVTOutput`; and what `Run` of lifecycle.go says of the accelerator.
use Prim.Native.Nat.{bit_or}
use dvm.Base.{
  ℕ, ◌<◌, ◌^◌, ℤ, pos, Bytes, codes, ◌≟◌, is_empty, Bool, true, false, ◌&&◌, Option, none, some,
  List, [], ◌∷◌, ◌++◌, if◌then◌else◌, ok,
}
use dvm.Base.{◌≡◌, refl, sym, subst, ◌∙◌, inr}
use dvm.Vm.State.{LockHost, pid_line, acquire_lock}
use dvm.Vm.Stop.{Signal, terminate, kill}
use mathlib.Core.Option.{some-injective}
use dvm.Vm.Locking.{atoi-pid_line, acquire_lock_iff}

-- What the null signal comes to
pub data SignalAnswer : Type 0 where
  delivered : SignalAnswer
  no_such_process : SignalAnswer
  not_permitted : SignalAnswer

-- `processAlive` of proc_unix.go; no answer means that os.FindProcess fails.
unfoldable pub unix_alive : (ℤ → Option SignalAnswer) → ℤ → Bool
unix_alive signal pid = elim (signal pid) [
  | none ↦ false
  | some delivered ↦ true
  | some no_such_process ↦ false
  | some not_permitted ↦ false
]

-- `processAlive` of proc_windows.go: whether os.FindProcess succeeds
unfoldable pub windows_alive : (ℤ → Bool) → ℤ → Bool
windows_alive finds pid = finds pid

-- What the operating system does to a process
pub data ProcessCall : Type 0 where
  ask_to_end : ProcessCall
  end_at_once : ProcessCall

-- What the signals of a shutdown are for an operating system: `terminate` of proc_unix.go and of
-- proc_windows.go, and Kill of the package os
unfoldable pub process_call : Bytes → Signal → ProcessCall
process_call goos terminate = if goos ≟ codes "windows" then end_at_once else ask_to_end
process_call goos kill = end_at_once

-- `enableVTOutput`: on Windows the flag is set in the mode of the console, if there is a mode that
-- can be had and set.
unfoldable pub enable_vt_output : Bytes → ℕ → Bool → Option ℕ → Option ℕ
enable_vt_output goos flag can_set none = none
enable_vt_output goos flag can_set (some mode) =
    if (goos ≟ codes "windows") && can_set then some (bit_or mode flag) else some mode

-- `accelHint` for an operating system
unfoldable pub accel_hint : Bytes → Bytes
accel_hint goos =
    if goos ≟ codes "linux"
    then codes "KVM acceleration was not available; enable it for much better performance:\n"
      ++ (codes
            "  - enable CPU virtualization (VT-x/AMD-V) in firmware and ensure /dev/kvm exists\n"
          ++ (codes "  - if running as a non-root user, add it to the 'kvm' group:\n"
              ++ codes "      sudo usermod -aG kvm \"$USER\"   (then log out and back in)"))
    else if goos ≟ codes "windows"
    then codes
        "WHPX acceleration was not available; enable the Windows Hypervisor Platform (admin):\n"
      ++ (codes
            "  dism /Online /Enable-Feature /FeatureName:HypervisorPlatform /All   (then reboot)\n"
          ++ codes "and confirm CPU virtualization (VT-x/AMD-V) is enabled in firmware.")
    else []

pub data AccelNotice : Type 0 where
  software_emulation : AccelNotice
  hint : Bytes → AccelNotice
  accelerated : Bytes → AccelNotice

-- What `Run` says behind the start of QEMU
unfoldable pub accel_notices : Bytes → Bytes → List AccelNotice
unfolding accel_hint
accel_notices goos accel =
    if accel ≟ codes "tcg"
    then software_emulation
      ∷ (if is_empty (accel_hint goos) then [] else hint (accel_hint goos) ∷ [])
    else accelerated accel ∷ []

abbrev pub unix_host : (ℤ → Option SignalAnswer) → LockHost
unix_host signal = record {
  can_create = true;
  can_read = true;
  can_remove = true;
  alive = unix_alive signal;
}

-- The lock of a live process that may not be signalled, such as one of another user, is taken for
-- stale: a second process gets it where it can remove and create the file.
pub acquire_lock-not_permitted :
    (signal : ℤ → Option SignalAnswer) (self : ℤ) (n : ℕ)
    → n < 2 ^ 63
    → signal (pos n) ≡ some not_permitted
    → acquire_lock (unix_host signal) self (some (pid_line (pos n))) ≡ (ok tt, some (pid_line self))
unfolding unix_alive
acquire_lock-not_permitted signal self n lt e =
    (acquire_lock_iff (unix_host signal) self (some (pid_line (pos n)))).1 (
      refl,
      (
        inr λ m em.
            subst (λ k. unix_alive signal k ≡ false)
              (some-injective _ _ (sym (atoi-pid_line n lt) ∙ em)) (rw (unix_alive, e) refl),
        refl,
      ),
    )
