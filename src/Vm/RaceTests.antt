-- ===== src/Vm/RaceTests.antt =====
-- The theorems on overlapping calls at concrete processes.
use dvm.Base.{ℤ, pos, codes, Bool, true, false, none, some, [], ◌≡◌, refl, arith}
use dvm.Vm.State.{LockHost, acquire_lock}
use dvm.Vm.Race.{
  Files, Pc, idle, opening, holding, Processes, Schedule, content, begin, create, write,
}
use dvm.Vm.Racing.{Schedule-both}
use dvm.Vm.Undisturbed.{Yields, acquire_lock-Yields}
use dvm.Vm.Calm.{CalmSchedule, IsSole, start, call, CalmSchedule-IsSole}

abbrev everybody : ℤ → Bool
everybody pid = true

abbrev no_file : Files
no_file = record { lock = none; texts = λ i. []; fresh = 0 }

abbrev waiting : Processes
waiting = record { files = no_file; pc = λ n. idle }

Schedule-both_example :
    (t : Processes) × Schedule everybody waiting t × (t.pc 3 ≡ holding) × (t.pc 4 ≡ holding)
Schedule-both_example = Schedule-both everybody waiting 3 4 (omega arith) refl refl refl

-- A stale lock file that can be removed
abbrev stale_file : Files
stale_file = record { lock = some 7; texts = λ i. codes "41\n"; fresh = 8 }

abbrev lock_host : LockHost
lock_host = record { can_create = true; can_read = true; can_remove = true; alive = λ pid. false }

acquire_lock-Yields_example :
    Yields lock_host.alive 42 stale_file
      (opening 1)
      (acquire_lock lock_host (pos 42) (content stale_file))
acquire_lock-Yields_example = acquire_lock-Yields lock_host 42 stale_file

one_holds : (t : Processes) × CalmSchedule everybody waiting t × (t.pc 3 ≡ holding)
unfolding dvm.Vm.Race.update
one_holds =
    (_, call (call (call start 3 refl begin tt) 3 refl (create refl) tt) 3 refl write tt, refl)

CalmSchedule-IsSole_example : IsSole one_holds.0
CalmSchedule-IsSole_example =
    CalmSchedule-IsSole everybody waiting one_holds.0 (λ k. refl) one_holds.1
