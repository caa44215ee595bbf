-- ===== src/Cli/Spelling.antt =====
-- How a flag can be written on a command line, and what the parser makes of it.
use dvm.Base.{ℕ, All, Bytes, codes, ◌≟◌, cut, Lacks, cut-append, Bool, true, false, none, some}
use dvm.Base.{List, [], ◌∷◌, ◌++◌, Result, ok, err, Result-cases, ◌≡◌, ◌≢◌}
use dvm.Base.{refl, ap, ◌∙◌, arith, if◌then◌else◌}
use dvm.Cli.Numbers.{parse_bool, one_of}
use dvm.Cli.Arguments.{
  Setter, text, number, switch, Failure, named, assign, find_flag, flag_syntax, flag_name,
  parse_args, read_argument, read_named, named_cut, Reading, assigned_or_stopped,
}

-- -name=v and --name=v, or -name v and --name v, or -name and --name alone; the Boolean says whether
-- there are two dashes.
pub data Spelling : Type 0 where
  joined : Bool → Spelling
  apart : Bool → Spelling
  bare : Bool → Spelling

abbrev pub dashes : Bool → Bytes → Bytes
dashes two name = if two then b'-' ∷ b'-' ∷ name else b'-' ∷ name

unfoldable pub spell : Spelling → Bytes → Bytes → List Bytes
spell (joined two) name v = dashes two (name ++ (b'=' ∷ v)) ∷ []
spell (apart two) name v = dashes two name ∷ v ∷ []
spell (bare two) name v = dashes two name ∷ []

-- A name that the parser can find: not empty, with no equals sign, and with no dash in front
abbrev pub IsFlagName : Bytes → Type 0
IsFlagName [] = ⊥
IsFlagName (c ∷ s) = (c ≢ b'-') × Lacks b'=' (c ∷ s)

-- A Boolean flag takes no separate value, and stands for true alone; no other flag stands alone.
abbrev pub CanSpell : {P : Type 0} → Setter P → Spelling → Bytes → Type 0
CanSpell s (joined two) v = Unit
CanSpell (switch f) (apart two) v = ⊥
CanSpell (switch f) (bare two) v = v ≡ codes "true"
CanSpell s (apart two) v = Unit
CanSpell s (bare two) v = ⊥

CanSpell-apart :
    {P : Type 0} (s : Setter P) (two : Bool) (v : Bytes)
    → CanSpell s (apart two) v
    → CanSpell s (apart true) v
CanSpell-apart (text f) two v can = can
CanSpell-apart (number f) two v can = can
CanSpell-apart (switch f) two v can = can

cut-Lacks : (s : Bytes) (sep : ℕ) → Lacks sep s → cut s sep ≡ none
unfolding cut
cut-Lacks [] sep h = refl
cut-Lacks (c ∷ s) sep (hc, hs) = rw (cut-Lacks s sep hs) (ground arith)

flag_syntax-dashes :
    (two : Bool) (c : ℕ) (s : Bytes)
    → c ≢ b'-'
    → c ≢ b'='
    → flag_syntax (dashes two (c ∷ s)) ≡ named_cut (c ∷ s) (cut (c ∷ s) b'=')
unfolding flag_syntax flag_name
flag_syntax-dashes true c s hd he = ground arith
flag_syntax-dashes false c s hd he = ground arith

flag_syntax-joined :
    (two : Bool) (name v : Bytes)
    → IsFlagName name
    → flag_syntax (dashes two (name ++ (b'=' ∷ v))) ≡ named name (some v)
flag_syntax-joined two [] v h = absurd h
flag_syntax-joined two (c ∷ s) v (hd, h) =
    flag_syntax-dashes two c (s ++ (b'=' ∷ v)) hd h.0
    ∙ ap (named_cut (c ∷ (s ++ (b'=' ∷ v)))) (cut-append (c ∷ s) v b'=' h)

flag_syntax-apart :
    (two : Bool) (name : Bytes) → IsFlagName name → flag_syntax (dashes two name) ≡ named name none
flag_syntax-apart two [] h = absurd h
flag_syntax-apart two (c ∷ s) (hd, h) =
    flag_syntax-dashes two c s hd h.0 ∙ ap (named_cut (c ∷ s)) (cut-Lacks (c ∷ s) b'=' h)

module _ {P : Type 0} (flags : List (Bytes × Setter P)) where
  -- The rest of the arguments, behind a value that was set or refused
  abbrev pub set_then : Result Failure P → List Bytes → Result Failure P
  set_then (ok q) rest = parse_args flags none rest q
  set_then (err e) rest = err e

  parse_args-pending :
      (s : Setter P) (v : Bytes) (rest : List Bytes) (p : P)
      → parse_args flags (some s) (v ∷ rest) p ≡ set_then (assign s v p) rest
  unfolding parse_args
  parse_args-pending s v rest p =
      Result-cases
        (λ r. elim r [ err e ↦ err e | ok q ↦ parse_args flags none rest q ] ≡ set_then r rest)
        (assign s v p) (λ q e. refl) (λ x e. refl)

  parse_args-joined :
      (arg name v : Bytes) (s : Setter P) (rest : List Bytes) (p : P)
      → flag_syntax arg ≡ named name (some v)
      → find_flag flags name ≡ some s
      → parse_args flags none (arg ∷ rest) p ≡ set_then (assign s v p) rest
  unfolding parse_args read_argument read_named
  parse_args-joined arg name v s rest p es ef =
      rw (parse_args, es, read_argument, ef, read_named)
        (Result-cases
          (λ r.
            elim (assigned_or_stopped r) [
              | Reading.no_more ↦ ok p
              | Reading.stopped e ↦ err e
              | Reading.assigned q ↦ parse_args flags none rest q
              | Reading.pending s ↦ parse_args flags (some s) rest p
            ]
            ≡ set_then r rest)
          (assign s v p) (λ q e. refl) (λ x e. refl))

  parse_args-apart :
      (arg name v : Bytes) (s : Setter P) (rest : List Bytes) (p : P)
      → flag_syntax arg ≡ named name none
      → find_flag flags name ≡ some s
      → CanSpell s (apart true) v
      → parse_args flags none (arg ∷ v ∷ rest) p ≡ set_then (assign s v p) rest
  unfolding parse_args read_argument read_named
  parse_args-apart arg name v (text f) rest p es ef can =
      rw (parse_args, es, read_argument, ef, read_named) (parse_args-pending (text f) v rest p)
  parse_args-apart arg name v (number f) rest p es ef can =
      rw (parse_args, es, read_argument, ef, read_named) (parse_args-pending (number f) v rest p)
  parse_args-apart arg name v (switch f) rest p es ef can = absurd can

  parse_args-bare :
      (arg name v : Bytes) (s : Setter P) (two : Bool) (rest : List Bytes) (p : P)
      → flag_syntax arg ≡ named name none
      → find_flag flags name ≡ some s
      → CanSpell s (bare two) v
      → parse_args flags none (arg ∷ rest) p ≡ set_then (assign s v p) rest
  unfolding parse_args read_argument read_named assign parse_bool one_of ◌≟◌
  parse_args-bare arg name v (text f) two rest p es ef can = absurd can
  parse_args-bare arg name v (number f) two rest p es ef can = absurd can
  parse_args-bare arg name v (switch f) two rest p es ef can =
      rw (can, parse_args, es, read_argument, ef, read_named) refl

  -- One flag, in any of its spellings
  parse_args-spell :
      (sp : Spelling) (name v : Bytes) (s : Setter P) (rest : List Bytes) (p : P)
      → IsFlagName name
      → find_flag flags name ≡ some s
      → CanSpell s sp v
      → parse_args flags none (spell sp name v ++ rest) p ≡ set_then (assign s v p) rest
  unfolding spell
  parse_args-spell (joined two) name v s rest p hn ef can =
      parse_args-joined (dashes two (name ++ (b'=' ∷ v))) name v s rest p
        (flag_syntax-joined two name v hn) ef
  parse_args-spell (apart two) name v s rest p hn ef can =
      parse_args-apart (dashes two name) name v s rest p (flag_syntax-apart two name hn) ef
        (CanSpell-apart s two v can)
  parse_args-spell (bare two) name v s rest p hn ef can =
      parse_args-bare (dashes two name) name v s two rest p (flag_syntax-apart two name hn) ef can

-- A flag on a command line
pub record Setting (P : Type 0) : Type 0 where
  pub name : Bytes
  pub value : Bytes
  pub spelling : Spelling
  pub setter : Setter P

abbrev pub IsSetting : {P : Type 0} → List (Bytes × Setter P) → Setting P → Type 0
IsSetting flags s =
    IsFlagName s.name
    × (find_flag flags s.name ≡ some s.setter)
    × CanSpell s.setter s.spelling s.value

module _ {P : Type 0} where
  unfoldable pub write_args : List (Setting P) → List Bytes
  write_args [] = []
  write_args (s ∷ ss) = spell s.spelling s.name s.value ++ write_args ss

  abbrev pub set_all_then : (P → Result Failure P) → Result Failure P → Result Failure P
  set_all_then next (ok p) = next p
  set_all_then next (err e) = err e

  -- The values, set one after the other; the first that is refused ends it.
  unfoldable pub set_all : List (Setting P) → P → Result Failure P
  set_all [] p = ok p
  set_all (s ∷ ss) p = set_all_then (set_all ss) (assign s.setter s.value p)

  -- A command line of flags, each in any of its spellings, sets their values in the order of the
  -- command line, and is refused exactly if one of the values is.
  pub parse_args-write_args :
      (flags : List (Bytes × Setter P)) (ss : List (Setting P)) (p : P)
      → All (IsSetting flags) ss
      → parse_args flags none (write_args ss) p ≡ set_all ss p
  unfolding write_args set_all
  parse_args-write_args flags [] p h = unfold parse_args in refl
  parse_args-write_args flags (s ∷ ss) p ((hn, ef, can), h) =
      parse_args-spell flags s.spelling s.name s.value s.setter (write_args ss) p hn ef can
      ∙ Result-cases (λ r. set_then flags r (write_args ss) ≡ set_all_then (set_all ss) r)
          (assign s.setter s.value p) (λ q e. parse_args-write_args flags ss q h) (λ x e. refl)
