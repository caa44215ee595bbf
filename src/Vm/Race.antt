-- ===== src/Vm/Race.antt =====
-- internal/vm/state.go: `AcquireLock` call by call of the operating system, for processes whose calls
-- overlap. The path of the lock names a file or nothing; a process that has created a file writes to
-- that file, also where the path names another one by then.
use dvm.Base.{
  ℕ, zero, suc, ℤ, pos, ltb_int, Bytes, Bool, true, false, ◌==◌, ◌&&◌, Option, none, some, [], ◌++◌,
  if◌then◌else◌, ◌≡◌,
}
use dvm.Vm.State.{read_pid, pid_line, LockError}

-- Which file the path names, what each file holds, and the number of the next new file
pub record Files : Type 0 where
  pub lock : Option ℕ
  pub texts : ℕ → Bytes
  pub fresh : ℕ

unfoldable pub update {ℓ} : {A : Type ℓ} → (ℕ → A) → ℕ → A → ℕ → A
update f n a k = if n == k then a else f k

-- Where a process stands; the number is that of the attempts behind this one.
pub data Pc : Type 0 where
  idle : Pc
  -- before os.OpenFile
  opening : ℕ → Pc
  -- before the write to the file that it has created
  created : ℕ → Pc
  -- before os.ReadFile
  reading : ℕ → Pc
  -- before `processAlive`
  checking : ℕ → ℤ → Pc
  -- before os.Remove
  removing : ℕ → Pc
  refused : LockError → Pc
  holding : Pc

abbrev pub content : Files → Option Bytes
content m = elim m.lock [ none ↦ none | some i ↦ some (m.texts i) ]

abbrev pub create_file : Files → Files
create_file m = record {
  lock = some m.fresh;
  texts = update m.texts m.fresh [];
  fresh = suc m.fresh;
}

abbrev pub write_pid : ℕ → ℕ → Files → Files
write_pid self i m = record m { texts = update m.texts i (m.texts i ++ pid_line (pos self)) }

-- `pid > 0 && processAlive(pid)`
abbrev pub is_live : (ℤ → Bool) → ℤ → Bool
is_live alive pid = ltb_int (pos 0) pid && alive pid

-- One call of the process `self`. Those that fail for another reason than the lock leave it.
pub data Move (alive : ℤ → Bool) (self : ℕ) (m : Files) : Pc → Files → Pc → Type 0 where
  begin : Move alive self m idle m (opening 1)
  create : {k : ℕ} → m.lock ≡ none → Move alive self m (opening k) (create_file m) (created m.fresh)
  cannot_open : {k : ℕ} → Move alive self m (opening k) m (refused LockError.cannot_open)
  exists : {k i : ℕ} → m.lock ≡ some i → Move alive self m (opening k) m (reading k)
  write : {i : ℕ} → Move alive self m (created i) (write_pid self i m) holding
  read : {k : ℕ} → Move alive self m (reading k) m (checking k (read_pid (content m)))
  unreadable : {k : ℕ} → Move alive self m (reading k) m (checking k (read_pid none))
  held :
      {k : ℕ} {pid : ℤ}
      → is_live alive pid ≡ true
      → Move alive self m (checking k pid) m (refused (LockError.already_running pid))
  stale :
      {k : ℕ} {pid : ℤ}
      → is_live alive pid ≡ false
      → Move alive self m (checking k pid) m (removing k)
  removed :
      {k i : ℕ}
      → m.lock ≡ some i
      → Move alive self m (removing (suc k)) (record m { lock = none }) (opening k)
  removed_last :
      {i : ℕ}
      → m.lock ≡ some i
      → Move alive self m (removing zero) (record m { lock = none }) (refused LockError.gave_up)
  cannot_remove : {k : ℕ} → Move alive self m (removing k) m (refused LockError.cannot_remove)
  -- the function that `AcquireLock` returns
  release : Move alive self m holding (record m { lock = none }) idle
  cannot_release : Move alive self m holding m idle

-- What one process does with no other call in between
pub data Solo (alive : ℤ → Bool) (self : ℕ) (m : Files) (p : Pc) : Files → Pc → Type 0 where
  done : Solo alive self m p m p
  next :
      {m' m'' : Files} {p' p'' : Pc}
      → Solo alive self m p m' p'
      → Move alive self m' p' m'' p''
      → Solo alive self m p m'' p''

-- The files, and where each process stands
pub record Processes : Type 0 where
  pub files : Files
  pub pc : ℕ → Pc

abbrev pub moved : Processes → ℕ → Files → Pc → Processes
moved s n m p = record { files = m; pc = update s.pc n p }

-- Any process makes its next call.
pub data Schedule (alive : ℤ → Bool) (s : Processes) : Processes → Type 0 where
  here : Schedule alive s s
  call :
      {t : Processes} {p p' : Pc} {m : Files}
      → Schedule alive s t
      → (n : ℕ) → t.pc n ≡ p
      → Move alive n t.files p m p'
      → Schedule alive s (moved t n m p')
