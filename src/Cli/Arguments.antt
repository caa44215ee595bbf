-- ===== src/Cli/Arguments.antt =====
-- Go's package flag, as cmd/dvm/main.go uses it: a set of named flags with what each of them sets,
-- and the reading of the arguments. A set that exits on an error is used, so a failure ends the
-- program: with 0 behind -h, with 2 otherwise.
use dvm.Base.{
  ℤ, ◌==◌, Bytes, codes, ◌≟◌, cut, is_empty, Bool, true, not, ◌||◌, Option, none, some, List, [],
  ◌∷◌, if◌then◌else◌, Result, ok, err,
}
use dvm.Cli.Numbers.{parse_bool, parse_int}

-- What an argument is
pub data Syntax : Type 0 where
  not_a_flag : Syntax
  end_of_flags : Syntax
  bad_syntax : Syntax
  named : Bytes → Option Bytes → Syntax

abbrev pub named_cut : Bytes → Option (Bytes × Bytes) → Syntax
named_cut name none = named name none
named_cut name (some (n, v)) = named n (some v)

-- The text behind the dashes
unfoldable pub flag_name : Bytes → Syntax
flag_name [] = bad_syntax
flag_name (c ∷ s) =
    if (c == b'-') || (c == b'=') then bad_syntax else named_cut (c ∷ s) (cut (c ∷ s) b'=')

unfoldable pub flag_syntax : Bytes → Syntax
unfolding flag_name
flag_syntax [] = not_a_flag
flag_syntax (c ∷ []) = not_a_flag
flag_syntax (c ∷ d ∷ s) =
    if not (c == b'-')
    then not_a_flag
    else if not (d == b'-')
    then flag_name (d ∷ s)
    else if is_empty s
    then end_of_flags
    else flag_name s

pub data Failure : Type 0 where
  helped : Failure
  refused : Failure

-- What a flag sets, by the kind of its value
pub data Setter (P : Type 0) : Type 0 where
  text : (Bytes → P → P) → Setter P
  number : (ℤ → P → P) → Setter P
  switch : (Bool → P → P) → Setter P

-- What is known behind one argument; `pending` waits for the value.
pub data Reading (P : Type 0) : Type 0 where
  no_more : Reading P
  stopped : Failure → Reading P
  assigned : P → Reading P
  pending : Setter P → Reading P

module _ {P : Type 0} where
  abbrev pub set_read : {A : Type 0} → Option A → (A → P) → Result Failure P
  set_read none f = err refused
  set_read (some a) f = ok (f a)

  -- `Set`
  unfoldable pub assign : Setter P → Bytes → P → Result Failure P
  assign (text f) v p = ok (f v p)
  assign (number f) v p = set_read (parse_int v) (λ n. f n p)
  assign (switch f) v p = set_read (parse_bool v) (λ b. f b p)

  unfoldable pub find_flag : List (Bytes × Setter P) → Bytes → Option (Setter P)
  find_flag [] name = none
  find_flag ((n, s) ∷ flags) name = if n ≟ name then some s else find_flag flags name

  abbrev pub assigned_or_stopped : Result Failure P → Reading P
  assigned_or_stopped (ok p) = assigned p
  assigned_or_stopped (err e) = stopped e

  abbrev pub without_value : Setter P → P → Reading P
  without_value (switch f) p = assigned (f true p)
  without_value s p = pending s

  abbrev pub read_value : Setter P → Option Bytes → P → Reading P
  read_value s none p = without_value s p
  read_value s (some v) p = assigned_or_stopped (assign s v p)

  unfoldable pub read_named : Option (Setter P) → Bytes → Option Bytes → P → Reading P
  unfolding assign
  read_named none name v p =
      if (name ≟ codes "help") || (name ≟ codes "h") then stopped helped else stopped refused
  read_named (some s) name v p = read_value s v p

  unfoldable pub read_argument : List (Bytes × Setter P) → Syntax → P → Reading P
  unfolding read_named find_flag
  read_argument flags not_a_flag p = no_more
  read_argument flags end_of_flags p = no_more
  read_argument flags bad_syntax p = stopped refused
  read_argument flags (named name v) p = read_named (find_flag flags name) name v p

  -- `Parse`; the arguments from the first one on that is no flag are left alone. A setter that
  -- waits for its value takes the next argument, whatever it looks like.
  unfoldable pub parse_args :
      List (Bytes × Setter P) → Option (Setter P) → List Bytes → P → Result Failure P
  unfolding read_argument flag_syntax
  parse_args flags none [] p = ok p
  parse_args flags (some s) [] p = err refused
  parse_args flags (some s) (v ∷ args) p = elim (assign s v p) [
    | err e ↦ err e
    | ok q ↦ parse_args flags none args q
  ]
  parse_args flags none (arg ∷ args) p = elim (read_argument flags (flag_syntax arg) p) [
    | no_more ↦ ok p
    | stopped e ↦ err e
    | assigned q ↦ parse_args flags none args q
    | pending s ↦ parse_args flags (some s) args p
  ]
