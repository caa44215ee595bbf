-- ===== src/Vm/Typing.antt =====
-- What the interactive console passes on to the guest.
use dvm.Base.{ℕ, ◌==◌, Bytes, Bool, true, false, Option, none, some, List, [], ◌∷◌, ◌++◌, map, All}
use dvm.Base.{◌≡◌, ◌≢◌, Bool-cases, inl, inr, arith}
use dvm.Vm.Console.{Keystroke, Left, detached, after_byte, typed, interactive}

-- The detach key is not among the bytes.
abbrev pub Spares : ℕ → Bytes → Type 0
Spares key = All (λ c. c ≢ key)

after_byte-Spares :
    (key : ℕ) (failed : Bool) (x : Bytes × Left)
    → Spares key x.0
    → Spares key (after_byte failed x).0
unfolding after_byte
after_byte-Spares key true (sent, l) h = tt
after_byte-Spares key false (sent, l) h = h

typed-Spares :
    (key : ℕ) (k : Keystroke) (b : Option ℕ) (x : Bytes × Left)
    → Spares key x.0
    → Spares key (typed key k b x).0
unfolding typed
typed-Spares key k none x h = after_byte-Spares key k.failed x h
typed-Spares key k (some c) x h = elim (Bool-cases (c == key)) [
  | inl y ↦ rw (typed, y) tt
  | inr n ↦ elim (Bool-cases k.writable) [
    | inl y ↦ rw (typed, n, y) (ground arith, after_byte-Spares key k.failed x h)
    | inr m ↦ rw (typed, n, m) tt
  ]
]

-- Whatever is typed, and wherever reads and writes fail, the guest never receives the detach key.
pub interactive-Spares : (key : ℕ) (ks : List Keystroke) → Spares key (interactive key ks).0
unfolding interactive typed
interactive-Spares key [] = tt
interactive-Spares key (k ∷ ks) = elim (Bool-cases k.closed) [
  | inl y ↦ rw (interactive, y) tt
  | inr n ↦
      rw (interactive, n)
        (typed-Spares key k k.byte (interactive key ks) (interactive-Spares key ks))
]

-- A byte that is read and can be passed on
abbrev pub press : ℕ → Keystroke
press c = record { closed = false; byte = some c; writable = true; failed = false }

-- A text without the detach key, followed by the key, is passed on whole, the key is not, and the
-- console is left; what is typed behind it stays.
pub interactive-press :
    (key : ℕ) (s : Bytes) (ks : List Keystroke)
    → Spares key s
    → interactive key (map press s ++ (press key ∷ ks)) ≡ (s, detached)
unfolding interactive typed after_byte
interactive-press key [] ks h = ground arith
interactive-press key (c ∷ s) ks (hc, hs) = rw (interactive-press key s ks hs) (ground arith)
