-- ===== src/Vm/Told.antt =====
-- What the user is told before the wait for the end of QEMU.
use dvm.Base.{ℕ, suc, take, Bytes, Bool, true, false, List, [], ◌∷◌, ◌++◌, map}
use dvm.Base.{◌≡◌, refl}
use dvm.Vm.Ready.{Probe}
use dvm.Vm.Waiting.{verdict}
use dvm.Vm.Console.{Keystroke}
use dvm.Vm.Foreground.{
  verdict_notice, probing, services, service, Notice, Screen, console_session, after_session,
  entered,
}

-- The notices for some probes and a number of connections
abbrev pub readiness_told : List Probe → ℕ → List Notice
readiness_told [] n = []
readiness_told (p ∷ probes) n =
    map probing (take (suc n) (p ∷ probes)) ++ (verdict_notice (verdict (p ∷ probes) n) ∷ [])

-- A heading, if there are services, and these
abbrev pub heading : List Bytes → List Notice
heading [] = []
heading (s ∷ ss) = services ∷ []

abbrev pub listed : List Bytes → List Notice
listed ss = heading ss ++ map service ss

-- The console restores the terminal, however it is left.
pub console_session-screen :
    (is_terminal can_raw : Bool) (old : Screen) (key : ℕ) (ks : List Keystroke)
    → (console_session is_terminal can_raw old key ks).screen
      ≡ record { raw = old.raw; mirrored = false }
unfolding console_session after_session entered
console_session-screen true true old key ks = refl
console_session-screen true false old key ks = refl
console_session-screen false can_raw old key ks = refl
