-- ===== src/Cli/Ending.antt =====
-- How the program ends, from its arguments on.
use dvm.Base.{Bytes, codes, ◌≟◌, ≟_iff, has_prefix, Bool, true, false, Bool-cases}
use dvm.Base.{All, Option, none, List, [], ◌∷◌, if◌then◌else◌, ok, Result-cases}
use dvm.Base.{◌≡◌, ◌↔◌, ◌⊎◌, inl, inr, refl, sym, ap, ◌∙◌, subst, arith}
use dvm.Cache.Disk.{Disk}
use dvm.Qemu.{Archive}
use dvm.App.{App, new_app, app_clean}
use dvm.App.Cleaning.{goes, app_clean_lem}
use dvm.Cli.Commands.{split_command, action_of, print_usage, Parsed, finish_flags, task_of}
use dvm.Cli.Arguments.{Failure, helped, refused, parse_args}
use dvm.Cli.Table.{unset, flag_table}
use dvm.Cli.Spelling.{Setting, IsSetting, write_args}
use dvm.Cli.Switched.{with_state_of, parse_args-with_state_of}
use dvm.Cli.Main.{
  Machine, printed, run_task, with_app, with_flags, failure_end, clean_end, do_command,
  main_program,
}

no_usage : ¬ (action_of (codes "start") ≡ print_usage)
unfolding action_of ◌≟◌
no_usage e = cc

help_is_usage :
    (rest : List Bytes) → action_of (split_command (codes "help" ∷ rest)).0 ≡ print_usage
unfolding action_of split_command ◌≟◌ has_prefix
help_is_usage rest = refl

default_is_no_usage : ¬ (action_of (split_command []).0 ≡ print_usage)
unfolding split_command
default_is_no_usage e = no_usage e

action_of-print_usage :
    (c : Bytes) → action_of c ≡ print_usage → (c ≡ codes "help") ⊎ (has_prefix c (codes "-") ≡ true)
unfolding action_of has_prefix
action_of-print_usage c e = ground (
  arith,
  ≟_iff c (codes "version"),
  ≟_iff c (codes "start"),
  ≟_iff c (codes "help"),
  ≟_iff c (codes "-h"),
  ≟_iff c (codes "--help"),
)

usage_of_help :
    (arg : Bytes) (args : List Bytes)
    → action_of (split_command (arg ∷ args)).0 ≡ print_usage
    → arg ≡ codes "help"
unfolding split_command
usage_of_help arg args e = elim (Bool-cases (has_prefix arg (codes "-"))) [
  | inl y ↦ absurd (no_usage (rw y at e))
  | inr n ↦ elim (action_of-print_usage arg (rw n at e)) [ inl same ↦ same | inr y ↦ cc ]
]

-- The usage is printed exactly where the first argument is the word help, so not for -h and --help,
-- for which the switch has cases.
pub split_command-print_usage :
    (args : List Bytes)
    → (action_of (split_command args).0 ≡ print_usage)
      ↔ ((rest : List Bytes) × (args ≡ codes "help" ∷ rest))
split_command-print_usage [] = (λ e. absurd (default_is_no_usage e), λ (rest, e). absurd (cc e))
split_command-print_usage (arg ∷ args) = (
  λ e. (args, ap (λ a. a ∷ args) (usage_of_help arg args e)),
  λ (rest, e). rw e (help_is_usage rest),
)

clean_end-printed :
    (x : Bool × Disk) {lines : List Bytes}
    → (clean_end x).0 ≡ printed lines
    → (x.0 ≡ true) × ((clean_end x).1 ≡ x.1)
clean_end-printed (true, d) e = (refl, refl)
clean_end-printed (false, d) e = absurd (cc e)

pub failure_end-printed :
    {A : Type 0} (x : Failure) {lines : List Bytes} → failure_end x ≡ printed lines → A
failure_end-printed helped e = absurd (cc e)
failure_end-printed refused e = absurd (cc e)

module _ (sha : Bytes → Bytes) (open_archive : Bytes → Option Archive)
    (encode : Bytes → List (Bytes × Bytes) → Bytes) (blank : Bytes)
    (qemu_img : Bytes → Bytes → Bytes → Bytes → Disk → Bool × Disk) where
  -- What a `clean` that went well did
  abbrev CleansWith : Machine → List Bytes → Disk → Disk → Type 0
  CleansWith m args d d' =
      (p : Parsed) × (a : App) × (parse_args (flag_table (codes "clean")) none args unset ≡ ok p)
      × (new_app m.vz.world.host m.unmarshal (finish_flags (codes "clean") p) ≡ ok a)
      × ((q : Bytes) → d' q ≡ (if goes p.with_state a q then none else d q))

  app_clean-CleansWith :
      (m : Machine) (args : List Bytes) (d : Disk) (lines : List Bytes) (p : Parsed) (a : App)
      → parse_args (flag_table (codes "clean")) none args unset ≡ ok p
      → new_app m.vz.world.host m.unmarshal (finish_flags (codes "clean") p) ≡ ok a
      → (clean_end (app_clean m.can_clean p.with_state a d)).0 ≡ printed lines
      → CleansWith m args d (clean_end (app_clean m.can_clean p.with_state a d)).1
  app_clean-CleansWith m args d lines p a ep ea e =
      let (went, same) = clean_end-printed (app_clean m.can_clean p.with_state a d) e in
      (p, a, ep, ea, λ q. ap (λ x. x q) same ∙ app_clean_lem m.can_clean p.with_state a d q went)

  app-CleansWith :
      (m : Machine) (args : List Bytes) (d : Disk) (lines : List Bytes) (p : Parsed)
      → parse_args (flag_table (codes "clean")) none args unset ≡ ok p
      → let r = new_app m.vz.world.host m.unmarshal (finish_flags (codes "clean") p) in
        (with_app sha open_archive encode blank qemu_img m (codes "clean") p r d).0 ≡ printed lines
        → CleansWith m args d
            (with_app sha open_archive encode blank qemu_img m (codes "clean") p r d).1
  unfolding run_task task_of ◌≟◌
  app-CleansWith m args d lines p ep =
      Result-cases
        (λ r.
          (with_app sha open_archive encode blank qemu_img m (codes "clean") p r d).0
            ≡ printed lines
          → CleansWith m args d
              (with_app sha open_archive encode blank qemu_img m (codes "clean") p r d).1)
        (new_app m.vz.world.host m.unmarshal (finish_flags (codes "clean") p))
        (λ a ea. app_clean-CleansWith m args d lines p a ep ea) (λ x ex e. absurd (cc e))

  clean-CleansWith :
      (m : Machine) (args : List Bytes) (d : Disk) (lines : List Bytes)
      → (do_command sha open_archive encode blank qemu_img m (codes "clean") args d).0
        ≡ printed lines
      → CleansWith m args d
          (do_command sha open_archive encode blank qemu_img m (codes "clean") args d).1
  unfolding do_command
  clean-CleansWith m args d lines =
      Result-cases
        (λ r.
          (with_flags sha open_archive encode blank qemu_img m (codes "clean") r d).0
            ≡ printed lines
          → CleansWith m args d
              (with_flags sha open_archive encode blank qemu_img m (codes "clean") r d).1)
        (parse_args (flag_table (codes "clean")) none args unset)
        (λ p ep. app-CleansWith m args d lines p ep) (λ x ex e. failure_end-printed x e)

  clean_main :
      (m : Machine) (args : List Bytes) (d : Disk)
      → main_program sha open_archive encode blank qemu_img m (codes "clean" ∷ args) d
        ≡ do_command sha open_archive encode blank qemu_img m (codes "clean") args d
  unfolding main_program split_command action_of ◌≟◌ has_prefix
  clean_main m args d = refl

  cleaned_main :
      (m : Machine) (args : List Bytes) (d : Disk) (lines : List Bytes)
      → (main_program sha open_archive encode blank qemu_img m (codes "clean" ∷ args) d).0
        ≡ printed lines
      → CleansWith m args d
          (main_program sha open_archive encode blank qemu_img m (codes "clean" ∷ args) d).1
  cleaned_main m args d lines =
      subst (λ x. x.0 ≡ printed lines → CleansWith m args d x.1) (sym (clean_main m args d))
        (clean-CleansWith m args d lines)

  -- What a `clean` with such flags did
  abbrev pub IsCleaned : Machine → List (Setting Parsed) → Disk → Disk → Type 0
  IsCleaned m ss d d' =
      (p : Parsed) × (a : App) × (parse_args (flag_table (codes "clean")) none (write_args ss) unset
        ≡ ok p)
      × (new_app m.vz.world.host m.unmarshal (finish_flags (codes "clean") p) ≡ ok a)
      × ((q : Bytes) → d' q ≡ (if goes (with_state_of ss) a q then none else d q))

  -- Where `dvm clean`, with flags in any of their spellings, ends well, the flags were accepted and
  -- the application was made from them, and the disk is what it was without what stands at or below
  -- the component cache and, exactly if the last --with-state of the command line is true, at or
  -- below the directory of the machine.
  pub main_program-IsCleaned :
      (m : Machine) (ss : List (Setting Parsed)) (d : Disk) (lines : List Bytes)
      → All (IsSetting (flag_table (codes "clean"))) ss
      → (main_program sha open_archive encode blank qemu_img m (codes "clean" ∷ write_args ss) d).0
        ≡ printed lines
      → IsCleaned m ss d
          (main_program sha open_archive encode blank qemu_img m
            (codes "clean" ∷ write_args ss)
            d).1
  main_program-IsCleaned m ss d lines h e =
      let (p, a, ep, ea, same) = cleaned_main m (write_args ss) d lines e in
      (
        p,
        a,
        ep,
        ea,
        λ q.
            same q
            ∙ ap (λ b. if goes b a q then none else d q) (parse_args-with_state_of ss p h ep),
      )
