-- ===== src/Vm/Locking.antt =====
-- Who gets the lock of a state directory.
use dvm.Base.{
  ℕ, zero, suc, ◌<◌, ◌^◌, ℤ, pos, negsuc, ltb_int, ◌&&◌, atoi, subst, sym, ◌∙◌, Bool-cases, ◌⊎◌,
  inl, inr, Bytes, codes, itoa, trim_space, trim_left, All, Bool, true, false, not,
}
use dvm.Base.{
  Option, none, some, [], ◌∷◌, ◌++◌, Result, ok, err, ◌≡◌, ◌≢◌, ◌↔◌, refl, ap, arith, if◌then◌else◌,
}
use dvm.Base.Decimals.{IsDigit, All-reverse, trim_left-digits, atoi-itoa, itoa-All, itoa-ne-nil}
use mathlib.Core.Option.{some-injective}
use mathlib.Core.List.{reverse, reverse-append, reverse-reverse}
use dvm.Vm.State.{
  read_pid, pid_or_zero, lock_pid, pid_line, LockError, already_running, cannot_open, cannot_remove,
  LockHost, is_held, try_lock, acquire_lock,
}

trim_left-append : (s t : Bytes) → All IsDigit s → s ≢ [] → trim_left (s ++ t) ≡ s ++ t
unfolding trim_left
trim_left-append [] t h ne = absurd (ne refl)
trim_left-append (c ∷ s) t (hc, hs) ne = ground arith

trim_space-line : (s : Bytes) → All IsDigit s → s ≢ [] → trim_space (s ++ codes "\n") ≡ s
unfolding trim_space trim_left
trim_space-line s h ne =
    rw (trim_left-append s (codes "\n") h ne, reverse-append s (codes "\n"))
      (rw (trim_left-digits (reverse s) (All-reverse s h)) (reverse-reverse s))

pub atoi-pid_line : (n : ℕ) → n < 2 ^ 63 → atoi (trim_space (pid_line (pos n))) ≡ some (pos n)
unfolding pid_line
atoi-pid_line n lt =
    rw (trim_space-line (itoa (pos n)) (itoa-All n) (itoa-ne-nil n)) (atoi-itoa n lt)

-- What a process writes as its id is read back as that id, for ids from 0 up to the largest int64.
pub read_pid-pid_line : (n : ℕ) → n < 2 ^ 63 → read_pid (some (pid_line (pos n))) ≡ pos n
unfolding read_pid
read_pid-pid_line n lt = rw (atoi-pid_line n lt) refl

-- Nothing stands in the way of the lock: there is no file, or it can be removed and either cannot be
-- read or names no process that is said to live.
abbrev pub IsFree : LockHost → Option Bytes → Type 0
IsFree h none = Unit
IsFree h (some text) =
    ((h.can_read ≡ false)
      ⊎ ((n : ℕ) → atoi (trim_space text) ≡ some (pos (suc n)) → h.alive (pos (suc n)) ≡ false))
    × (h.can_remove ≡ true)

positive-dead :
    (alive : ℤ → Bool) (r : Option ℤ)
    → ((ltb_int (pos 0) (pid_or_zero r) && alive (pid_or_zero r)) ≡ false)
      ↔ ((n : ℕ) → r ≡ some (pos (suc n)) → alive (pos (suc n)) ≡ false)
positive-dead alive none = (λ e n h. absurd (cc h), λ h. refl)
positive-dead alive (some (pos zero)) = (λ e n h. absurd (cc h), λ h. refl)
positive-dead alive (some (pos (suc n))) = (
  λ e m h. subst (λ z. alive z ≡ false) (some-injective _ _ h) (positive n ∙ e),
  λ h. sym (positive n) ∙ h n refl,
)
  where
    positive :
        (n : ℕ) → alive (pos (suc n)) ≡ (ltb_int (pos 0) (pos (suc n)) && alive (pos (suc n)))
    positive n = ground arith
positive-dead alive (some (negsuc n)) = (λ e m h. absurd (cc h), λ h. refl)

is_held-dead :
    (h : LockHost) (text : Bytes)
    → (is_held h text ≡ false)
      ↔ (h.can_read ≡ false)
        ⊎ ((n : ℕ) → atoi (trim_space text) ≡ some (pos (suc n)) → h.alive (pos (suc n)) ≡ false)
unfolding read_pid
is_held-dead h text = elim (Bool-cases h.can_read) [
  | inr unreadable ↦ (λ e. inl unreadable, λ d. rw unreadable refl)
  | inl readable ↦
      let p = positive-dead h.alive (atoi (trim_space text)) in
      (
        λ e. inr (p.0 (rw readable at e)),
        λ d. rw readable (elim d [
          | inl not_readable ↦ absurd (cc (readable, not_readable))
          | inr dead ↦ p.1 dead
        ]),
      )
]

-- What `AcquireLock` comes to without a lock file, and with one.
abbrev Outcome : Type 0
Outcome = Result LockError (Unit {0}) × Option Bytes

abbrev new_file : ℤ → Bool → Outcome
new_file self create = if create then (ok tt, some (pid_line self)) else (err cannot_open, none)

abbrev old_file : ℤ → ℤ → Bytes → Bool → Bool → Bool → Outcome
old_file self pid text held removable create =
    if held
    then (err (already_running pid), some text)
    else if not removable
    then (err cannot_remove, some text)
    else new_file self create

failed : (e : LockError) (l : Option Bytes) (o : Outcome) → (err e, l) ≡ o → o.0 ≢ ok tt
failed e l o same h = cc (ap (λ (t : Outcome). t.0) same, h)

new_file_iff :
    (self : ℤ) (create : Bool)
    → (new_file self create ≡ (ok tt, some (pid_line self))) ↔ (create ≡ true) × Unit {0}
new_file_iff self true = (λ e. (refl, tt), λ e. refl)
new_file_iff self false = (λ e. absurd (failed cannot_open none _ e refl), λ e. absurd (cc e.0))

old_file_iff :
    (self pid : ℤ) (text : Bytes) (held removable create : Bool)
    → (old_file self pid text held removable create ≡ (ok tt, some (pid_line self)))
      ↔ (create ≡ true) × (held ≡ false) × (removable ≡ true)
old_file_iff self pid text true r c =
    (λ e. absurd (failed (already_running pid) (some text) _ e refl), λ e. absurd (cc e.1))
old_file_iff self pid text false false c =
    (λ e. absurd (failed cannot_remove (some text) _ e refl), λ e. absurd (cc e.2))
old_file_iff self pid text false true true = (λ e. (refl, refl, refl), λ e. refl)
old_file_iff self pid text false true false =
    (λ e. absurd (failed cannot_open none _ e refl), λ e. absurd (cc e.0))

new_file_ok :
    (self : ℤ) (create : Bool)
    → (new_file self create).0 ≡ ok tt
    → (new_file self create).1 ≡ some (pid_line self)
new_file_ok self true e = refl
new_file_ok self false e = absurd (cc e)

old_file_ok :
    (self pid : ℤ) (text : Bytes) (held removable create : Bool)
    → (old_file self pid text held removable create).0 ≡ ok tt
    → (old_file self pid text held removable create).1 ≡ some (pid_line self)
old_file_ok self pid text true r c e = absurd (cc e)
old_file_ok self pid text false false c e = absurd (cc e)
old_file_ok self pid text false true c e = new_file_ok self c e

pub acquire_lock_iff :
    (h : LockHost) (self : ℤ) (lock : Option Bytes)
    → (acquire_lock h self lock ≡ (ok tt, some (pid_line self)))
      ↔ (h.can_create ≡ true) × IsFree h lock
unfolding acquire_lock try_lock
acquire_lock_iff h self none = new_file_iff self h.can_create
acquire_lock_iff h self (some text) =
    let f = old_file_iff self (lock_pid h text) text (is_held h text) h.can_remove h.can_create in
    let u = is_held-dead h text in
    (λ e. ((f.0 e).0, (u.0 (f.0 e).1, (f.0 e).2)), λ e. f.1 (e.0, u.1 e.1.0, e.1.1))

pub acquire_lock-ok :
    (h : LockHost) (self : ℤ) (lock : Option Bytes)
    → (acquire_lock h self lock).0 ≡ ok tt
    → (acquire_lock h self lock).1 ≡ some (pid_line self)
unfolding acquire_lock try_lock
acquire_lock-ok h self none e = new_file_ok self h.can_create e
acquire_lock-ok h self (some text) e =
    old_file_ok self (lock_pid h text) text (is_held h text) h.can_remove h.can_create e

held_by :
    (h : LockHost) (text : Bytes) (n : ℕ)
    → read_pid (some text) ≡ pos n
    → 0 < n
    → h.can_read ≡ true
    → h.alive (pos n) ≡ true
    → is_held h text ≡ true
held_by h text n e lt readable live = rw (readable, e, live) (ground arith)

pub try_lock-held :
    (h : LockHost) (self : ℤ) (attempts : ℕ) (text : Bytes) (n : ℕ)
    → read_pid (some text) ≡ pos n
    → 0 < n
    → h.can_read ≡ true
    → h.alive (pos n) ≡ true
    → try_lock h self (suc attempts) (some text) ≡ (err (already_running (pos n)), some text)
unfolding try_lock
try_lock-held h self attempts text n e lt readable live =
    rw (held_by h text n e lt readable live, readable, e) refl

-- Once a process with a positive id in the range of int64 has the lock, and while it lives, every
-- other attempt that can read the file is refused with its id, and the lock stays.
pub acquire_lock-refused :
    (h h' : LockHost) (n : ℕ) (other : ℤ) (lock : Option Bytes)
    → suc n < 2 ^ 63
    → (acquire_lock h (pos (suc n)) lock).0 ≡ ok tt
    → h'.can_read ≡ true
    → h'.alive (pos (suc n)) ≡ true
    → acquire_lock h' other (acquire_lock h (pos (suc n)) lock).1
      ≡ (err (already_running (pos (suc n))), some (pid_line (pos (suc n))))
unfolding acquire_lock
acquire_lock-refused h h' n other lock lt e readable live =
    rw (acquire_lock-ok h (pos (suc n)) lock e) (
      try_lock-held h' other 1 (pid_line (pos (suc n))) (suc n) (read_pid-pid_line (suc n) lt)
        (ground arith) readable live)
