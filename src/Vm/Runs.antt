-- ===== src/Vm/Runs.antt =====
-- Several processes and one state directory: each call of `AcquireLock` and of the function that it
-- returns is one step, and processes start and die, with or without having released the lock.
use dvm.Base.{
  ℕ, suc, ◌<◌, ◌^◌, ℤ, pos, Bytes, Bool, true, false, ◌==◌, Elem, Option, List, [], ◌∷◌,
  if◌then◌else◌, ok, err, ◌≡◌,
}
use dvm.Vm.State.{LockError, LockHost, acquire_lock, release_lock}

-- The lock file, the processes that live, and those that were given the lock and neither released it
-- nor died.
pub record World : Type 0 where
  pub lock : Option Bytes
  pub alive : ℤ → Bool
  pub holders : List ℕ

-- The host of a call can read the lock file, and `processAlive` is right about the processes that
-- live; creating and removing the file may fail, and a dead process may be taken for a live one.
abbrev pub IsSound : World → LockHost → Type 0
IsSound w h = (h.can_read ≡ true) × ((k : ℕ) → w.alive (pos k) ≡ true → h.alive (pos k) ≡ true)

unfoldable pub without : ℕ → List ℕ → List ℕ
without n [] = []
without n (m ∷ ms) = let rest = without n ms in if n == m then rest else m ∷ rest

pub data Step (w : World) : World → Type 0 where
  -- A process gets the lock.
  acquired :
      (h : LockHost) (n : ℕ)
      → IsSound w h
      → w.alive (pos (suc n)) ≡ true
      → suc n < 2 ^ 63
      → (acquire_lock h (pos (suc n)) w.lock).0 ≡ ok tt
      → Step w
          (record w { lock = (acquire_lock h (pos (suc n)) w.lock).1; holders = suc n ∷ w.holders })
  -- A process does not get the lock.
  denied :
      (h : LockHost) (n : ℕ) (e : LockError)
      → IsSound w h
      → (acquire_lock h (pos (suc n)) w.lock).0 ≡ err e
      → Step w (record w { lock = (acquire_lock h (pos (suc n)) w.lock).1 })
  -- A holder releases the lock.
  released :
      (h : LockHost) (n : ℕ)
      → Elem n w.holders
      → Step w (record w { lock = release_lock h w.lock; holders = without n w.holders })
  -- A process dies, and leaves the lock as it is.
  died :
      (n : ℕ) (alive : ℤ → Bool)
      → ((k : ℕ) → (n == k) ≡ false → alive (pos k) ≡ w.alive (pos k))
      → Step w (record w { alive = alive; holders = without n w.holders })
  -- A process starts.
  started :
      (alive : ℤ → Bool)
      → ((k : ℕ) → w.alive (pos k) ≡ true → alive (pos k) ≡ true)
      → Step w (record w { alive = alive })

-- What can come of a directory whose lock file is anything, while no process holds the lock.
pub data Reachable (lock : Option Bytes) (alive : ℤ → Bool) : World → Type 0 where
  initial : Reachable lock alive (record { lock = lock; alive = alive; holders = [] })
  later : {w w' : World} → Reachable lock alive w → Step w w' → Reachable lock alive w'
