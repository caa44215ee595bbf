-- ===== src/Cli/Switched.antt =====
-- What the flag --with-state of `dvm clean` comes to.
use dvm.Base.{Bytes, codes, ◌≟◌, All, Bool, false, Option, none, some, List, if◌then◌else◌, ok}
use dvm.Base.{◌≡◌, sym, ap}
use dvm.Cli.Commands.{Parsed}
use dvm.Cli.Numbers.{parse_bool}
use dvm.Cli.Arguments.{parse_args}
use dvm.Cli.Table.{common_flags, clean_flags, flag_table, unset}
use dvm.Cli.Spelling.{Setting, IsSetting, write_args}
use dvm.Cli.Repeated.{
  Collects, adds, keeps_number, keeps_switch, sets_switch, collected, parse_args-collected,
}

abbrev is_true : Option Bool → Bool
is_true none = false
is_true (some b) = b

abbrev switched : Bytes → Bytes → Bool → Bool
switched name v b = if name ≟ codes "with-state" then is_true (parse_bool v) else b

-- The value of the last --with-state on a command line, and false where there is none
abbrev pub with_state_of : List (Setting Parsed) → Bool
with_state_of ss = collected switched ss false

common_Collect : All (Collects (λ p. p.with_state) switched) common_flags
unfolding common_flags ◌≟◌
common_Collect = search (adds, keeps_number, keeps_switch)

clean_Collect : All (Collects (λ p. p.with_state) switched) clean_flags
unfolding ◌≟◌
clean_Collect = (sets_switch _ switched (codes "with-state") _ (λ v n p e. sym (ap is_true e)), tt)

pub parse_args-with_state_of :
    (ss : List (Setting Parsed)) (q : Parsed)
    → All (IsSetting (flag_table (codes "clean"))) ss
    → parse_args (flag_table (codes "clean")) none (write_args ss) unset ≡ ok q
    → q.with_state ≡ with_state_of ss
parse_args-with_state_of ss q h e =
    parse_args-collected (λ p. p.with_state) switched (codes "clean") ss q common_Collect
      clean_Collect h e
