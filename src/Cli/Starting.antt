-- ===== src/Cli/Starting.antt =====
-- What a start from the command line comes to.
use dvm.Base.{Bool}
use dvm.Base.{Bytes, codes, ◌≟◌, true}
use dvm.Base.{Option, none, List, Result, ok, err, Result-cases}
use dvm.Base.{◌≡◌, ◌⊎◌, inl, inr, refl, ap, ◌∙◌, subst, sym}
use dvm.Cache.Disk.{Disk}
use dvm.Config.Valid.{IsValid}
use dvm.Qemu.{Archive}
use dvm.Vm.{lock_path}
use dvm.App.{App, new_app, state_dir, start, set_runtime_flags}
use dvm.App.Flow.{FlowError}
use dvm.App.Merging.{new_app-IsValid}
use dvm.App.Releasing.{start-lock_path, HadLock}
use dvm.Cli.Commands.{
  split_command, Action, action_of, print_version, run_command, print_usage, unknown_command,
  Parsed, finish_flags, Task, task_of, clean, stop, status,
}
use dvm.Cli.Commands
use dvm.Cli.Arguments.{parse_args}
use dvm.Cli.Table.{unset, flag_table}
use dvm.Cli.Main.{
  Machine, printed, run_task, with_app, with_flags, flow_end, do_command, main_program,
}
use dvm.Cli.Ending.{failure_end-printed}

-- The commands that boot a machine
abbrev pub IsStart : Bytes → Type 0
IsStart c = (c ≡ codes "start") ⊎ (c ≡ codes "console")

action_of_start : (c : Bytes) → IsStart c → action_of c ≡ run_command
unfolding action_of ◌≟◌
action_of_start c (inl e) = rw e refl
action_of_start c (inr e) = rw e refl

task_of-start :
    (command : Bytes) (p : Parsed)
    → IsStart command
    → task_of command p ≡ Commands.start p.flags.reset (finish_flags command p).console
unfolding task_of ◌≟◌
task_of-start command p (inl e) = rw e refl
task_of-start command p (inr e) = rw e refl

flow_end-printed :
    (f : Unit {0} → List Bytes) (x : Result FlowError (Unit {0}) × Disk) {lines : List Bytes}
    → (flow_end f x).0 ≡ printed lines
    → (x.0 ≡ ok tt) × ((flow_end f x).1 ≡ x.1)
flow_end-printed f (ok u, d) e = (refl, refl)
flow_end-printed f (err x, d) e = absurd (cc e)

module _ (sha : Bytes → Bytes) (open_archive : Bytes → Option Archive)
    (encode : Bytes → List (Bytes × Bytes) → Bytes) (blank : Bytes)
    (qemu_img : Bytes → Bytes → Bytes → Bytes → Disk → Bool × Disk) where
  -- A start from the command line that went well: the flags were accepted, the application was
  -- made from them, and its start succeeded and left this disk.
  pub record Started (m : Machine) (command : Bytes) (args : List Bytes) (before after : Disk)
      : Type 0 where
    pub parsed : Parsed
    pub app : App
    pub accepted : parse_args (flag_table command) none args unset ≡ ok parsed
    pub created : new_app m.vz.world.host m.unmarshal (finish_flags command parsed) ≡ ok app
    pub went :
        (start sha open_archive encode blank qemu_img m.vz
          (set_runtime_flags parsed.flags.reset (finish_flags command parsed).console app)
          before).0
        ≡ ok tt
    pub left :
        after
        ≡ (start sha open_archive encode blank qemu_img m.vz
            (set_runtime_flags parsed.flags.reset (finish_flags command parsed).console app)
            before).1

  task-Started :
      (m : Machine) (command : Bytes) (args : List Bytes) (d : Disk) (lines : List Bytes)
      (p : Parsed) (a : App)
      → parse_args (flag_table command) none args unset ≡ ok p
      → new_app m.vz.world.host m.unmarshal (finish_flags command p) ≡ ok a
      → let t = Commands.start p.flags.reset (finish_flags command p).console in
        (run_task sha open_archive encode blank qemu_img m a t d).0 ≡ printed lines
        → Started m command args d (run_task sha open_archive encode blank qemu_img m a t d).1
  unfolding run_task
  task-Started m command args d lines p a ep ea e =
      let b = set_runtime_flags p.flags.reset (finish_flags command p).console a in
      let (went, same) =
        flow_end-printed _ (start sha open_archive encode blank qemu_img m.vz b d) e in
      record { parsed = p; app = a; accepted = ep; created = ea; went = went; left = same }

  app-Started :
      (m : Machine) (command : Bytes) (args : List Bytes) (d : Disk) (lines : List Bytes)
      (p : Parsed)
      → IsStart command
      → parse_args (flag_table command) none args unset ≡ ok p
      → let r = new_app m.vz.world.host m.unmarshal (finish_flags command p) in
        (with_app sha open_archive encode blank qemu_img m command p r d).0 ≡ printed lines
        → Started m command args d
            (with_app sha open_archive encode blank qemu_img m command p r d).1
  app-Started m command args d lines p hs ep =
      Result-cases
        (λ r.
          (with_app sha open_archive encode blank qemu_img m command p r d).0 ≡ printed lines
          → Started m command args d
              (with_app sha open_archive encode blank qemu_img m command p r d).1)
        (new_app m.vz.world.host m.unmarshal (finish_flags command p))
        (λ a ea. rw (task_of-start command p hs) (task-Started m command args d lines p a ep ea))
        (λ x ex e. absurd (cc e))

  do_command-Started :
      (m : Machine) (command : Bytes) (args : List Bytes) (d : Disk) (lines : List Bytes)
      → IsStart command
      → (do_command sha open_archive encode blank qemu_img m command args d).0 ≡ printed lines
      → Started m command args d
          (do_command sha open_archive encode blank qemu_img m command args d).1
  unfolding do_command
  do_command-Started m command args d lines hs =
      Result-cases
        (λ r.
          (with_flags sha open_archive encode blank qemu_img m command r d).0 ≡ printed lines
          → Started m command args d
              (with_flags sha open_archive encode blank qemu_img m command r d).1)
        (parse_args (flag_table command) none args unset)
        (λ p ep. app-Started m command args d lines p hs ep) (λ x ex e. failure_end-printed x e)

  pub main_program-Started :
      (m : Machine) (args : List Bytes) (d : Disk) (lines : List Bytes)
      → IsStart (split_command args).0
      → (main_program sha open_archive encode blank qemu_img m args d).0 ≡ printed lines
      → Started m
          (split_command args).0
          (split_command args).1
          d
          (main_program sha open_archive encode blank qemu_img m args d).1
  unfolding main_program
  main_program-Started m args d lines hs =
      rw (action_of_start _ hs)
        (do_command-Started m (split_command args).0 (split_command args).1 d lines hs)

  -- What a start of a machine that went well did
  abbrev pub IsBooted : Machine → Bytes → List Bytes → Disk → Type 0
  IsBooted m command args d =
      (p : Parsed) × (a : App) × (parse_args (flag_table command) none args unset ≡ ok p)
      × (new_app m.vz.world.host m.unmarshal (finish_flags command p) ≡ ok a)
      × IsValid a.cfg
      × (d (lock_path (state_dir a)) ≡ none)

  Started-IsBooted :
      (m : Machine) (command : Bytes) (args : List Bytes) (d d' : Disk)
      → m.vz.world.lock_removable ≡ true
      → Started m command args d d'
      → IsBooted m command args d'
  Started-IsBooted m command args d d' can s = (
    s.parsed,
    s.app,
    s.accepted,
    s.created,
    (new_app-IsValid m.vz.world.host m.unmarshal (finish_flags command s.parsed) s.created).0,
    ap (λ t. t (lock_path (state_dir s.app))) s.left
        ∙ unfold set_runtime_flags state_dir in
          start-lock_path sha open_archive encode blank qemu_img m.vz
            (set_runtime_flags s.parsed.flags.reset (finish_flags command s.parsed).console s.app) d
            can (subst HadLock (sym s.went) tt),
  )

  -- Where the lock can be removed, and `dvm start`, `dvm console`, or `dvm` with no command ends
  -- well, the flags were accepted, the application was made from them with a valid configuration,
  -- and no lock is left behind for it.
  pub main_program-IsBooted :
      (m : Machine) (args : List Bytes) (d : Disk) (lines : List Bytes)
      → IsStart (split_command args).0
      → m.vz.world.lock_removable ≡ true
      → (main_program sha open_archive encode blank qemu_img m args d).0 ≡ printed lines
      → IsBooted m
          (split_command args).0
          (split_command args).1
          (main_program sha open_archive encode blank qemu_img m args d).1
  main_program-IsBooted m args d lines hs can e =
      Started-IsBooted m (split_command args).0 (split_command args).1 d _ can
        (main_program-Started m args d lines hs e)
