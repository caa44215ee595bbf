-- ===== src/Vm/State.antt =====
-- internal/vm/state.go: the files of a state directory, the lock and the pid file. A file is its
-- content, or nothing where there is none.
use dvm.Base.{ℕ, zero, suc, ℤ, pos, ltb_int, Bytes, codes, atoi, itoa, trim_space, Bool, not, ◌&&◌}
use dvm.Base.{Option, none, some, [], ◌∷◌, ◌++◌, if◌then◌else◌, Result, ok, err}
use dvm.Base.FilePath.{join_path}

-- The paths below the directory.
unfoldable pub overlay_path : Bytes → Bytes
overlay_path dir = join_path (dir ∷ codes "state.qcow2" ∷ [])

unfoldable pub seed_path : Bytes → Bytes
seed_path dir = join_path (dir ∷ codes "seed.img" ∷ [])

unfoldable pub qmp_socket : Bytes → Bytes
qmp_socket dir = join_path (dir ∷ codes "qmp.sock" ∷ [])

unfoldable pub serial_socket : Bytes → Bytes
serial_socket dir = join_path (dir ∷ codes "serial.sock" ∷ [])

unfoldable pub pid_path : Bytes → Bytes
pid_path dir = join_path (dir ∷ codes "qemu.pid" ∷ [])

unfoldable pub lock_path : Bytes → Bytes
lock_path dir = join_path (dir ∷ codes "lock" ∷ [])

unfoldable pub launcher_log : Bytes → Bytes
launcher_log dir = join_path (dir ∷ codes "logs" ∷ codes "launcher.log" ∷ [])

unfoldable pub qemu_log : Bytes → Bytes
qemu_log dir = join_path (dir ∷ codes "logs" ∷ codes "qemu.log" ∷ [])

unfoldable pub serial_log : Bytes → Bytes
serial_log dir = join_path (dir ∷ codes "logs" ∷ codes "serial.log" ∷ [])

abbrev pub pid_or_zero : Option ℤ → ℤ
pid_or_zero none = pos 0
pid_or_zero (some pid) = pid

-- `readPID`: zero for a file that is missing or not a number
unfoldable pub read_pid : Option Bytes → ℤ
read_pid none = pos 0
read_pid (some text) = pid_or_zero (atoi (trim_space text))

-- What `WritePID` and `AcquireLock` write
unfoldable pub pid_line : ℤ → Bytes
pid_line pid = itoa pid ++ codes "\n"

pub data LockError : Type 0 where
  cannot_open : LockError
  already_running : ℤ → LockError
  cannot_remove : LockError
  gave_up : LockError

-- What the operating system answers: whether a file can be made, read and removed, and what
-- `processAlive` says of a process.
pub record LockHost : Type 0 where
  pub can_create : Bool
  pub can_read : Bool
  pub can_remove : Bool
  pub alive : ℤ → Bool

-- `readPID` of the lock file: zero, too, if it cannot be read
abbrev pub lock_pid : LockHost → Bytes → ℤ
lock_pid h text = if h.can_read then read_pid (some text) else pos 0

abbrev pub is_held : LockHost → Bytes → Bool
is_held h text = ltb_int (pos 0) (lock_pid h text) && h.alive (lock_pid h text)

-- The loop of `AcquireLock` by the process `self`, with the attempts that are left. An exclusive
-- open succeeds only where there is no file.
unfoldable pub try_lock :
    LockHost → ℤ → ℕ → Option Bytes → Result LockError (Unit {0}) × Option Bytes
try_lock h self zero lock = (err gave_up, lock)
try_lock h self (suc n) none =
    if h.can_create then (ok tt, some (pid_line self)) else (err cannot_open, none)
try_lock h self (suc n) (some text) =
    let again = try_lock h self n none in
    if is_held h text
    then (err (already_running (lock_pid h text)), some text)
    else if not h.can_remove
    then (err cannot_remove, some text)
    else again

-- `AcquireLock`
unfoldable pub acquire_lock :
    LockHost → ℤ → Option Bytes → Result LockError (Unit {0}) × Option Bytes
acquire_lock h self lock = try_lock h self 2 lock

-- The function that `AcquireLock` returns: the file is removed, if it can be.
unfoldable pub release_lock : LockHost → Option Bytes → Option Bytes
release_lock h lock = if h.can_remove then none else lock
