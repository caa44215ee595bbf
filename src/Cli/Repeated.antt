-- ===== src/Cli/Repeated.antt =====
-- What the repeatable flags --port and --qemu-arg collect.
use dvm.Base.{Bytes, codes, ◌≟◌, All, All-append, Bool, Bool-cases, inl, inr, ℤ, Option}
use dvm.Base.{some, List, [], ◌∷◌, ◌++◌, append-nil, append_assoc, Result, ok, err, ok-injective}
use dvm.Base.{◌≡◌, refl, sym, ap, subst, ◌∙◌, if◌then◌else◌, none, ≟_iff}
use mathlib.Core.Path.{ap₂}
use mathlib.Core.Option.{some-injective}
use dvm.Cli.Commands.{Parsed}
use dvm.Cli.Numbers.{parse_bool, parse_int}
use dvm.Cli.Arguments.{
  set_read, Setter, text, number, switch, Failure, assign, find_flag, parse_args,
}
use dvm.Cli.Table.{common_flags, clean_flags, flag_table, unset}
use dvm.Cli.Spelling.{Setting, IsSetting, write_args, set_all, set_all_then, parse_args-write_args}

-- The values of one flag on a command line, in its order
unfoldable pub values_of : {P : Type 0} → Bytes → List (Setting P) → List Bytes
values_of key [] = []
values_of key (s ∷ ss) =
    let rest = values_of key ss in if s.name ≟ key then s.value ∷ rest else rest

set_read-ok :
    {P A : Type 0} (o : Option A) (f : A → P) {q : P}
    → set_read o f ≡ ok q
    → (a : A) × (o ≡ some a) × (f a ≡ q)
set_read-ok none f e = absurd (cc e)
set_read-ok (some a) f e = (a, refl, ok-injective e)

set_all_then-ok :
    {P : Type 0} (next : P → Result Failure P) (r : Result Failure P) {q : P}
    → set_all_then next r ≡ ok q
    → (p : P) × (r ≡ ok p) × (next p ≡ ok q)
set_all_then-ok next (ok p) e = (p, refl, e)
set_all_then-ok next (err x) e = absurd (cc e)

-- The value is added to a list if the flag has the key for its name.
abbrev appended : Bytes → Bytes → Bytes → List Bytes → List Bytes
appended key name v l = if name ≟ key then l ++ (v ∷ []) else l

module _ {A : Type 0} (kept : Parsed → A) (grown : Bytes → Bytes → A → A) where
  -- What is kept becomes what the name and the value of a flag make of it.
  abbrev pub Collects : Bytes × Setter Parsed → Type 0
  Collects (name, s) =
      (v : Bytes) (p q : Parsed) → assign s v p ≡ ok q → kept q ≡ grown name v (kept p)

  pub adds :
      (name : Bytes) (f : Bytes → Parsed → Parsed)
      → ((v : Bytes) (p : Parsed) → kept (f v p) ≡ grown name v (kept p))
      → Collects (name, text f)
  unfolding assign
  adds name f h v p q e = sym (ap kept (ok-injective e)) ∙ h v p

  pub keeps_number :
      (name : Bytes) (f : ℤ → Parsed → Parsed)
      → ((v : Bytes) (n : ℤ) (p : Parsed) → kept (f n p) ≡ grown name v (kept p))
      → Collects (name, number f)
  unfolding assign
  keeps_number name f h v p q e =
      let (n, read, m) = set_read-ok (parse_int v) _ e in sym (ap kept m) ∙ h v n p

  pub keeps_switch :
      (name : Bytes) (f : Bool → Parsed → Parsed)
      → ((v : Bytes) (n : Bool) (p : Parsed) → kept (f n p) ≡ grown name v (kept p))
      → Collects (name, switch f)
  unfolding assign
  keeps_switch name f h v p q e =
      let (n, read, m) = set_read-ok (parse_bool v) _ e in sym (ap kept m) ∙ h v n p

  pub sets_switch :
      (name : Bytes) (f : Bool → Parsed → Parsed)
      → ((v : Bytes) (n : Bool) (p : Parsed)
          → parse_bool v ≡ some n
          → kept (f n p) ≡ grown name v (kept p))
      → Collects (name, switch f)
  unfolding assign
  sets_switch name f h v p q e =
      let (n, read, m) = set_read-ok (parse_bool v) _ e in sym (ap kept m) ∙ h v n p read

  find_flag-Collects :
      (flags : List (Bytes × Setter Parsed)) (name : Bytes) (s : Setter Parsed)
      → All Collects flags
      → find_flag flags name ≡ some s
      → Collects (name, s)
  unfolding find_flag
  find_flag-Collects [] name s h e = absurd (cc e)
  find_flag-Collects ((n, t) ∷ flags) name s (ht, h) e = elim (Bool-cases (n ≟ name)) [
    | inl y ↦
        subst Collects
          (ap₂ (λ a b. (a, b)) ((≟_iff n name).0 y) (some-injective _ _ (rw (find_flag, y) at e)))
          ht
    | inr no_match ↦ find_flag-Collects flags name s h (rw (find_flag, no_match) at e)
  ]

common_Collect_ports : All (Collects (λ p. p.ports) (appended (codes "port"))) common_flags
unfolding common_flags ◌≟◌
common_Collect_ports = search (adds, keeps_number, keeps_switch)

common_Collect_args : All (Collects (λ p. p.qemu_args) (appended (codes "qemu-arg"))) common_flags
unfolding common_flags ◌≟◌
common_Collect_args = search (adds, keeps_number, keeps_switch)

clean_Collect_ports : All (Collects (λ p. p.ports) (appended (codes "port"))) clean_flags
unfolding ◌≟◌
clean_Collect_ports = search keeps_switch

clean_Collect_args : All (Collects (λ p. p.qemu_args) (appended (codes "qemu-arg"))) clean_flags
unfolding ◌≟◌
clean_Collect_args = search keeps_switch

-- What the flags of a command line make of it, one after the other
abbrev pub collected : {P A : Type 0} → (Bytes → Bytes → A → A) → List (Setting P) → A → A
collected grown [] a = a
collected grown (s ∷ ss) a = collected grown ss (grown s.name s.value a)

module _ {A : Type 0} (kept : Parsed → A) (grown : Bytes → Bytes → A → A) where
  flag_table-Collects :
      (command : Bytes)
      → All (Collects kept grown) common_flags
      → All (Collects kept grown) clean_flags
      → All (Collects kept grown) (flag_table command)
  unfolding flag_table
  flag_table-Collects command h hc = elim (Bool-cases (command ≟ codes "clean")) [
    | inl y ↦ rw y (All-append (Collects kept grown) common_flags clean_flags h hc)
    | inr n ↦ rw n h
  ]

  set_all-collected :
      (flags : List (Bytes × Setter Parsed)) (ss : List (Setting Parsed)) (p q : Parsed)
      → All (Collects kept grown) flags
      → All (IsSetting flags) ss
      → set_all ss p ≡ ok q
      → kept q ≡ collected grown ss (kept p)
  unfolding set_all
  set_all-collected flags [] p q hf hs e = sym (ap kept (ok-injective e))
  set_all-collected flags (s ∷ ss) p q hf ((hn, ef, can), hs) e =
      let (r, er, eq) = set_all_then-ok (set_all ss) _ e in
      set_all-collected flags ss r q hf hs eq
      ∙ ap (collected grown ss)
          (find_flag-Collects kept grown flags s.name s.setter hf ef s.value p r er)

  -- What is kept by each flag of a command is kept by a command line that is accepted.
  pub parse_args-collected :
      (command : Bytes) (ss : List (Setting Parsed)) (q : Parsed)
      → All (Collects kept grown) common_flags
      → All (Collects kept grown) clean_flags
      → All (IsSetting (flag_table command)) ss
      → parse_args (flag_table command) none (write_args ss) unset ≡ ok q
      → kept q ≡ collected grown ss (kept unset)
  parse_args-collected command ss q hf hc h e =
      set_all-collected (flag_table command) ss unset q (flag_table-Collects command hf hc) h
        (sym (parse_args-write_args (flag_table command) ss unset h) ∙ e)

appended-values_of :
    (key : Bytes) (s : Setting Parsed) (l : List Bytes) (ss : List (Setting Parsed))
    → appended key s.name s.value l ++ values_of key ss ≡ l ++ values_of key (s ∷ ss)
unfolding values_of
appended-values_of key s l ss = elim (Bool-cases (s.name ≟ key)) [
  | inl y ↦ rw y (append_assoc l (s.value ∷ []) (values_of key ss))
  | inr n ↦ rw n refl
]

collected-values_of :
    (key : Bytes) (ss : List (Setting Parsed)) (l : List Bytes)
    → collected (appended key) ss l ≡ l ++ values_of key ss
unfolding values_of
collected-values_of key [] l = rw append-nil refl
collected-values_of key (s ∷ ss) l =
    collected-values_of key ss (appended key s.name s.value l) ∙ appended-values_of key s l ss

-- A command line of flags that is accepted, each flag in any of its spellings,
-- a Boolean flag alone among them, yields the values of
-- --port and those of --qemu-arg, each in the order of the command line and with none left out.
pub parse_args-values_of :
    (command : Bytes) (ss : List (Setting Parsed)) (q : Parsed)
    → All (IsSetting (flag_table command)) ss
    → parse_args (flag_table command) none (write_args ss) unset ≡ ok q
    → (q.ports ≡ values_of (codes "port") ss) × (q.qemu_args ≡ values_of (codes "qemu-arg") ss)
parse_args-values_of command ss q h e = (
  parse_args-collected (λ p. p.ports) (appended (codes "port")) command ss q common_Collect_ports
        clean_Collect_ports h e
      ∙ collected-values_of (codes "port") ss [],
  parse_args-collected (λ p. p.qemu_args) (appended (codes "qemu-arg")) command ss q
        common_Collect_args clean_Collect_args h e
      ∙ collected-values_of (codes "qemu-arg") ss [],
)
