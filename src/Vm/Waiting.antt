-- ===== src/Vm/Waiting.antt =====
-- Waiting for ports, and the attempts at the lock.
use dvm.Base.{ℕ, zero, suc, ℤ, Bytes, Option, none, some, List, [], ◌∷◌, Result, ok, err}
use dvm.Base.{◌≡◌, ◌≢◌, refl, Bool-cases, inl, inr}
use dvm.Vm.State.{gave_up, LockHost, is_held, try_lock, acquire_lock}
use dvm.Vm.Ready.{
  Probe, Round, over, connected, refused, over_in_pause, dial_until, wait_next, wait_tcp,
}

-- How many connections are made before the context ends
abbrev pub connections : List Round → ℕ
connections [] = 0
connections (over ∷ rounds) = 0
connections (connected ∷ rounds) = suc (connections rounds)
connections (refused ∷ rounds) = connections rounds
connections (over_in_pause ∷ rounds) = 0

-- Each probe takes one connection; the first probe that gets none is the error.
abbrev pub verdict : List Probe → ℕ → Result Probe (Unit {0})
verdict [] n = ok tt
verdict (p ∷ probes) zero = err p
verdict (p ∷ probes) (suc n) = verdict probes n

wait_next-verdict :
    (p : Probe) (probes : List Probe) (rounds : List Round)
    → ((rs : List Round) → wait_tcp probes rs ≡ verdict probes (connections rs))
    → wait_next (wait_tcp probes) p (dial_until rounds) ≡ verdict (p ∷ probes) (connections rounds)
unfolding wait_next dial_until
wait_next-verdict p probes [] h = refl
wait_next-verdict p probes (over ∷ rounds) h = refl
wait_next-verdict p probes (connected ∷ rounds) h = h rounds
wait_next-verdict p probes (refused ∷ rounds) h = wait_next-verdict p probes rounds h
wait_next-verdict p probes (over_in_pause ∷ rounds) h = refl

-- `WaitTCP` is the same as counting: with as many connections as probes before the context ends it
-- succeeds, and else its error names the first probe behind those that had one.
pub wait_tcp-verdict :
    (probes : List Probe) (rounds : List Round)
    → wait_tcp probes rounds ≡ verdict probes (connections rounds)
unfolding wait_tcp
wait_tcp-verdict [] rounds = refl
wait_tcp-verdict (p ∷ probes) rounds =
    wait_next-verdict p probes rounds (λ rs. wait_tcp-verdict probes rs)

free_lock : (h : LockHost) (self : ℤ) (n : ℕ) → (try_lock h self (suc n) none).0 ≢ err gave_up
unfolding try_lock
free_lock h self n e = elim (Bool-cases h.can_create) [
  | inl y ↦ cc (rw (try_lock, y) at e)
  | inr m ↦ cc (rw (try_lock, m) at e)
]

-- The two attempts at the lock are enough: the loop of `AcquireLock` never runs out of them, so the
-- error behind the loop is not returned while no other process interferes.
pub acquire_lock-gave_up :
    (h : LockHost) (self : ℤ) (lock : Option Bytes) → (acquire_lock h self lock).0 ≢ err gave_up
unfolding acquire_lock try_lock
acquire_lock-gave_up h self none e = free_lock h self 1 e
acquire_lock-gave_up h self (some text) e = elim (Bool-cases (is_held h text)) [
  | inl y ↦ cc (rw (acquire_lock, try_lock, y) at e)
  | inr n ↦ elim (Bool-cases h.can_remove) [
    | inl y ↦ free_lock h self 0 (rw (acquire_lock, try_lock, n, y) at e)
    | inr m ↦ cc (rw (acquire_lock, try_lock, n, m) at e)
  ]
]
