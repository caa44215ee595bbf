-- ===== src/Cli/Commands.antt =====
-- cmd/dvm/main.go: which command runs, with which flags.
use dvm.Base.{Bytes, codes, ◌≟◌, has_prefix, Bool, true, not, ◌||◌, List, [], ◌∷◌, if◌then◌else◌}
use dvm.App.Flags.{Flags}

-- The command and its arguments: `start` is the default, also before a first flag.
unfoldable pub split_command : List Bytes → Bytes × List Bytes
split_command [] = (codes "start", [])
split_command (arg ∷ args) =
    if has_prefix arg (codes "-") then (codes "start", arg ∷ args) else (arg, args)

pub data Action : Type 0 where
  print_version : Action
  run_command : Action
  print_usage : Action
  unknown_command : Action

-- The switch of `main`
unfoldable pub action_of : Bytes → Action
action_of c =
    if c ≟ codes "version"
    then print_version
    else if (c ≟ codes "start")
        || (c ≟ codes "console")
        || (c ≟ codes "status")
        || (c ≟ codes "clean")
        || (c ≟ codes "stop")
    then run_command
    else if (c ≟ codes "help") || (c ≟ codes "-h") || (c ≟ codes "--help")
    then print_usage
    else unknown_command

-- What the flag parser sets: the flags, the repeated ones apart, and two of its own variables.
pub record Parsed : Type 0 where
  pub flags : Flags
  pub ports : List Bytes
  pub qemu_args : List Bytes
  pub no_accel_fallback : Bool
  pub with_state : Bool

-- The assignments behind `fs.Parse`
unfoldable pub finish_flags : Bytes → Parsed → Flags
finish_flags command p = record (p.flags) {
  ports = p.ports;
  qemu_args = p.qemu_args;
  accel_fallback = not p.no_accel_fallback;
  console = if command ≟ codes "console" then true else p.flags.console;
}

-- What `runCommand` does with the application.
pub data Task : Type 0 where
  status : Task
  clean : Bool → Task
  stop : Task
  start : Bool → Bool → Task

unfoldable pub task_of : Bytes → Parsed → Task
task_of command p =
    if command ≟ codes "status"
    then status
    else if command ≟ codes "clean"
    then clean p.with_state
    else if command ≟ codes "stop"
    then stop
    else start p.flags.reset (finish_flags command p).console
