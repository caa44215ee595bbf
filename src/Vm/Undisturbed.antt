-- ===== src/Vm/Undisturbed.antt =====
-- `AcquireLock` as one step is `AcquireLock` call by call, where no other process comes between.
use dvm.Base.{
  ℕ, ℤ, pos, Bytes, Bool, true, false, not, Option, none, some, [], ◌++◌, Result, ok, err, ◌≡◌,
  refl, ap, ◌∙◌, if◌then◌else◌,
}
use dvm.Vm.State.{
  read_pid, lock_pid, pid_line, LockError, LockHost, is_held, try_lock, acquire_lock,
}
use dvm.Vm.Race.{
  Files, update, Pc, opening, reading, checking, removing, refused, holding, create, cannot_open,
  exists, write, read, unreadable, held, stale, removed, cannot_remove, content, create_file,
  write_pid, Solo, done, next,
}
use dvm.Vm.Racing.{update_self}

-- Where a call that returned such a result leaves the process
abbrev pub ends_at : Result LockError (Unit {0}) → Pc
ends_at (ok u) = holding
ends_at (err e) = refused e

abbrev files : Option ℕ → (ℕ → Bytes) → ℕ → Files
files lock texts fresh = record { lock = lock; texts = texts; fresh = fresh }

-- A run alone from `p` on ends as the result says, with the content of the lock that it says.
abbrev pub Yields :
    (ℤ → Bool) → ℕ → Files → Pc → Result LockError (Unit {0}) × Option Bytes → Type 0
Yields alive self m p (r, lock) =
    (m' : Files) × Solo alive self m p m' (ends_at r) × (content m' ≡ lock)

module _ (h : LockHost) (self : ℕ) where
  Solo_trans :
      {m : Files} {p : Pc} {m' : Files} {p' : Pc} {m'' : Files} {p'' : Pc}
      → Solo h.alive self m p m' p'
      → Solo h.alive self m' p' m'' p''
      → Solo h.alive self m p m'' p''
  Solo_trans a done = a
  Solo_trans a (next b mv) = next (Solo_trans a b) mv

  opened :
      (can : Bool) (k : ℕ) (texts : ℕ → Bytes) (fresh : ℕ)
      → Yields h.alive self
          (files none texts fresh)
          (opening k)
          (if can then (ok tt, some (pid_line (pos self))) else (err LockError.cannot_open, none))
  opened true k texts fresh = (
    write_pid self fresh (create_file (files none texts fresh)),
    next (next done (create refl)) write,
    ap some (
        update_self (update texts fresh []) fresh
          (update texts fresh [] fresh ++ pid_line (pos self))
        ∙ ap (λ t. t ++ pid_line (pos self)) (update_self texts fresh [])),
  )
  opened false k texts fresh = (files none texts fresh, next done cannot_open, refl)

  -- Behind a stale lock file: it is removed, and opened once more, or the call fails.
  reclaimed :
      (removable : Bool) (i : ℕ) (texts : ℕ → Bytes) (fresh : ℕ)
      → Yields h.alive self (files (some i) texts fresh) (removing 1) (
          if not removable
          then (err LockError.cannot_remove, some (texts i))
          else if h.can_create
          then (ok tt, some (pid_line (pos self)))
          else (err LockError.cannot_open, none))
  reclaimed true i texts fresh =
      let (m, run, same) = opened h.can_create 0 texts fresh in
      (m, Solo_trans (next done (removed refl)) run, same)
  reclaimed false i texts fresh = (files (some i) texts fresh, next done cannot_remove, refl)

  checked :
      (live : Bool) (i : ℕ) (texts : ℕ → Bytes) (fresh : ℕ)
      → is_held h (texts i) ≡ live
      → Yields h.alive self (files (some i) texts fresh) (checking 1 (lock_pid h (texts i))) (
          if live
          then (err (LockError.already_running (lock_pid h (texts i))), some (texts i))
          else if not h.can_remove
          then (err LockError.cannot_remove, some (texts i))
          else if h.can_create
          then (ok tt, some (pid_line (pos self)))
          else (err LockError.cannot_open, none))
  checked true i texts fresh e = (files (some i) texts fresh, next done (held e), refl)
  checked false i texts fresh e =
      let (m, run, same) = reclaimed h.can_remove i texts fresh in
      (m, Solo_trans (next done (stale e)) run, same)

  -- The file is read, or not.
  looked :
      (readable : Bool) (i : ℕ) (texts : ℕ → Bytes) (fresh : ℕ)
      → Solo h.alive self
          (files (some i) texts fresh)
          (reading 1)
          (files (some i) texts fresh)
          (checking 1 (if readable then read_pid (some (texts i)) else pos 0))
  unfolding read_pid
  looked true i texts fresh = next done read
  looked false i texts fresh = next done unreadable

  acquire_files :
      (lock : Option ℕ) (texts : ℕ → Bytes) (fresh : ℕ)
      → Yields h.alive self
          (files lock texts fresh)
          (opening 1)
          (acquire_lock h (pos self) (content (files lock texts fresh)))
  unfolding acquire_lock try_lock
  acquire_files none texts fresh = opened h.can_create 1 texts fresh
  acquire_files (some i) texts fresh =
      let (m, run, same) = checked (is_held h (texts i)) i texts fresh refl in
      (
        m,
        Solo_trans (Solo_trans (next done (exists refl)) (looked h.can_read i texts fresh)) run,
        same,
      )

  -- From any files, a process that no other one disturbs can run its calls of the operating system
  -- to the end that `AcquireLock` as one step has: the same result, the kind of an error and the id
  -- that it names included, and the same content of the lock.
  pub acquire_lock-Yields :
      (m : Files) → Yields h.alive self m (opening 1) (acquire_lock h (pos self) (content m))
  acquire_lock-Yields m = acquire_files m.lock m.texts m.fresh
