-- ===== src/Cli/Idle.antt =====
-- The ends of the program that leave the disk alone.
use dvm.Base.{Bytes, Bool, true, false}
use dvm.Base.{Option, List, Result, ok, err}
use dvm.Base.{◌≡◌, refl}
use dvm.Cache.Disk.{Disk}
use dvm.Qemu.{Archive}
use dvm.App.{AppError, App}
use dvm.App.Flow.{FlowError}
use dvm.Cli.Commands.{
  split_command, Action, action_of, print_version, run_command, print_usage, unknown_command,
  Parsed, finish_flags, Task, task_of, clean, stop, status,
}
use dvm.Cli.Commands
use dvm.Cli.Arguments.{Failure}
use dvm.Cli.Main.{
  Machine, End, failed, explained, misused, not_created, no_background, run_task, with_app,
  with_flags, flow_end, clean_end, do_command, main_program, act,
}

-- The program ended before its command did anything, or the command does nothing.
abbrev pub IsIdle : End → Type 0
IsIdle (failed (not_created e)) = Unit
IsIdle (failed no_background) = Unit
IsIdle explained = Unit
IsIdle misused = Unit
IsIdle x = ⊥

flow_end-IsIdle :
    {A : Type 0} (lines : A → List Bytes) (x : Result FlowError A × Disk)
    → ¬ IsIdle (flow_end lines x).0
flow_end-IsIdle lines (ok a, d) h = h
flow_end-IsIdle lines (err e, d) h = h

clean_end-IsIdle : (x : Bool × Disk) → ¬ IsIdle (clean_end x).0
clean_end-IsIdle (true, d) h = h
clean_end-IsIdle (false, d) h = h

module _ (sha : Bytes → Bytes) (open_archive : Bytes → Option Archive)
    (encode : Bytes → List (Bytes × Bytes) → Bytes) (blank : Bytes)
    (qemu_img : Bytes → Bytes → Bytes → Bytes → Disk → Bool × Disk) where
  run_task-IsIdle :
      (m : Machine) (a : App) (t : Task) (d : Disk)
      → IsIdle (run_task sha open_archive encode blank qemu_img m a t d).0
      → (run_task sha open_archive encode blank qemu_img m a t d).1 ≡ d
  unfolding run_task
  run_task-IsIdle m a status d h = absurd (flow_end-IsIdle _ _ h)
  run_task-IsIdle m a (clean w) d h = absurd (clean_end-IsIdle _ h)
  run_task-IsIdle m a stop d h = refl
  run_task-IsIdle m a (Commands.start reset console) d h = absurd (flow_end-IsIdle _ _ h)

  with_app-IsIdle :
      (m : Machine) (command : Bytes) (p : Parsed) (r : Result AppError App) (d : Disk)
      → IsIdle (with_app sha open_archive encode blank qemu_img m command p r d).0
      → (with_app sha open_archive encode blank qemu_img m command p r d).1 ≡ d
  with_app-IsIdle m command p (ok a) d h = run_task-IsIdle m a (task_of command p) d h
  with_app-IsIdle m command p (err e) d h = refl

  with_flags-IsIdle :
      (m : Machine) (command : Bytes) (r : Result Failure Parsed) (d : Disk)
      → IsIdle (with_flags sha open_archive encode blank qemu_img m command r d).0
      → (with_flags sha open_archive encode blank qemu_img m command r d).1 ≡ d
  with_flags-IsIdle m command (ok p) d h = with_app-IsIdle m command p _ d h
  with_flags-IsIdle m command (err e) d h = refl

  act-IsIdle :
      (m : Machine) (action : Action) (command : Bytes) (args : List Bytes) (d : Disk)
      → IsIdle (act sha open_archive encode blank qemu_img m action command args d).0
      → (act sha open_archive encode blank qemu_img m action command args d).1 ≡ d
  unfolding do_command
  act-IsIdle m print_version command args d h = refl
  act-IsIdle m run_command command args d h = with_flags-IsIdle m command _ d h
  act-IsIdle m print_usage command args d h = refl
  act-IsIdle m unknown_command command args d h = refl

  -- A program that prints the usage or the flags, that is refused for its command or its flags, that
  -- cannot make its application, for example because the configuration is missing or invalid, or
  -- that is asked to stop a machine, leaves the disk as it was.
  pub main_program-IsIdle :
      (m : Machine) (args : List Bytes) (d : Disk)
      → IsIdle (main_program sha open_archive encode blank qemu_img m args d).0
      → (main_program sha open_archive encode blank qemu_img m args d).1 ≡ d
  unfolding main_program
  main_program-IsIdle m args d =
      act-IsIdle m (action_of (split_command args).0) (split_command args).0 (split_command args).1
        d
