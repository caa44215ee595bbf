-- ===== src/Cli/Main.antt =====
-- cmd/dvm/main.go: `main` and `runCommand`, from the arguments to the exit code and the disk.
use dvm.Base.{ℕ, Bytes, Bool, true, false, Option, none, List, [], ◌∷◌}
use dvm.Base.{Result, ok, err}
use dvm.Config.{Unmarshal}
use dvm.Cache.Disk.{Disk}
use dvm.Qemu.{Archive}
use dvm.App.{
  AppError, App, new_app, set_runtime_flags, VzWorld, start as start_machine, app_status, app_clean,
  BuildData, version_info,
}
use dvm.App.Flow.{FlowError}
use dvm.Cli.Commands.{
  split_command, Action, action_of, print_version, run_command, print_usage, unknown_command,
  finish_flags, Parsed, Task, status, clean, stop, start, task_of,
}
use dvm.Cli.Arguments.{Failure, helped, refused, parse_args}
use dvm.Cli.Table.{unset, flag_table}

pub data CliError : Type 0 where
  not_created : AppError → CliError
  not_run : FlowError → CliError
  not_cleaned : CliError
  no_background : CliError

-- How the program ends: with lines on its output, with an error, or with a text on the flags, the
-- commands, or what was wrong with them.
pub data End : Type 0 where
  printed : List Bytes → End
  failed : CliError → End
  explained : End
  misused : End

-- os.Exit, or the end of `main`
unfoldable pub exit_code : End → ℕ
exit_code (printed lines) = 0
exit_code (failed e) = 1
exit_code explained = 0
exit_code misused = 2

-- What the program meets: the host and what a start meets, the reader of configurations, what the
-- build has recorded, and whether the cache and the state can be removed.
pub record Machine : Type 0 where
  pub vz : VzWorld
  pub unmarshal : Unmarshal
  pub build : BuildData
  pub settings : Option (List (Bytes × Bytes))
  pub can_clean : Bool × Bool

abbrev pub flow_end : {A : Type 0} → (A → List Bytes) → Result FlowError A × Disk → End × Disk
flow_end lines (ok a, d) = (printed (lines a), d)
flow_end lines (err e, d) = (failed (not_run e), d)

abbrev pub clean_end : Bool × Disk → End × Disk
clean_end (true, d) = (printed [], d)
clean_end (false, d) = (failed not_cleaned, d)

abbrev pub failure_end : Failure → End
failure_end helped = explained
failure_end refused = misused

module _ (sha : Bytes → Bytes) (open_archive : Bytes → Option Archive)
    (encode : Bytes → List (Bytes × Bytes) → Bytes) (blank : Bytes)
    (qemu_img : Bytes → Bytes → Bytes → Bytes → Disk → Bool × Disk) where
  -- The switch of `runCommand`
  unfoldable pub run_task : Machine → App → Task → Disk → End × Disk
  run_task m a status d = flow_end (λ lines. lines) (app_status m.vz.world.state_ok a d)
  run_task m a (clean with_state) d = clean_end (app_clean m.can_clean with_state a d)
  run_task m a stop d = (failed no_background, d)
  run_task m a (start reset console) d =
      flow_end (λ u. [])
        (start_machine sha open_archive encode blank qemu_img m.vz
          (set_runtime_flags reset console a) d)

  abbrev pub with_app : Machine → Bytes → Parsed → Result AppError App → Disk → End × Disk
  with_app m command p (err e) d = (failed (not_created e), d)
  with_app m command p (ok a) d = run_task m a (task_of command p) d

  abbrev pub with_flags : Machine → Bytes → Result Failure Parsed → Disk → End × Disk
  with_flags m command (err e) d = (failure_end e, d)
  with_flags m command (ok p) d =
      with_app m command p (new_app m.vz.world.host m.unmarshal (finish_flags command p)) d

  -- `runCommand`
  unfoldable pub do_command : Machine → Bytes → List Bytes → Disk → End × Disk
  unfolding run_task
  do_command m command args d =
      with_flags m command (parse_args (flag_table command) none args unset) d

  abbrev pub act : Machine → Action → Bytes → List Bytes → Disk → End × Disk
  act m print_version command args d =
      (printed (version_info m.vz.world.host m.build m.settings [] [] [] ∷ []), d)
  act m run_command command args d = do_command m command args d
  act m print_usage command args d = (explained, d)
  act m unknown_command command args d = (misused, d)

  -- `main`
  unfoldable pub main_program : Machine → List Bytes → Disk → End × Disk
  unfolding do_command
  main_program m args d =
      let (command, rest) = split_command args in act m (action_of command) command rest d
