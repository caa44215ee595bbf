-- ===== src/Vm/WaitingTests.antt =====
-- The theorems on waiting and on the attempts at the lock, at concrete inputs.
use dvm.Base.{codes, pos, false, true, some, [], ◌∷◌, err, ◌≢◌, List}
use dvm.Vm.State.{LockHost, acquire_lock, gave_up}
use dvm.Vm.Ready.{Probe, Round, connected, refused, over}
use dvm.Vm.Waiting.{acquire_lock-gave_up}

abbrev probes : List Probe
probes =
    record { name = codes "tcp/80"; addr = codes "127.0.0.1:80" }
    ∷ record { name = codes "tcp/22"; addr = codes "127.0.0.1:22" }
    ∷ []

abbrev rounds : List Round
rounds = refused ∷ connected ∷ refused ∷ over ∷ []

abbrev quiet_host : LockHost
quiet_host = record { can_create = true; can_read = true; can_remove = true; alive = λ pid. false }

acquire_lock-gave_up_example :
    (acquire_lock quiet_host (pos 7) (some (codes "12\n"))).0 ≢ err gave_up
acquire_lock-gave_up_example = acquire_lock-gave_up quiet_host (pos 7) (some (codes "12\n"))
