-- ===== src/Vm/Exclusion.antt =====
-- Mutual exclusion by the lock of a state directory.
use dvm.Base.{ℕ, suc, ◌<◌, ◌^◌, pos, true, some, [], ◌∷◌}
use dvm.Base.{◌≡◌, ◌⊎◌}
use dvm.Vm.State.{pid_line}
use dvm.Vm.Runs.{World}

-- No process holds the lock, or one does: it lives, and the lock file has its id.
abbrev pub IsExclusive : World → Type 0
IsExclusive w =
    (w.holders ≡ [])
    ⊎ ((n : ℕ) × (w.holders ≡ suc n ∷ [])
        × (w.lock ≡ some (pid_line (pos (suc n))))
        × (w.alive (pos (suc n)) ≡ true)
        × (suc n < 2 ^ 63))
