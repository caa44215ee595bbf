-- ===== src/Vm/Stop.antt =====
-- supervise and shutdown of internal/vm/lifecycle.go. How the guest behaves is an argument.
use dvm.Base.{Bool, Option, none, some, List, [], ◌∷◌, if◌then◌else◌, Result, ok, err}
use dvm.Qemu.{Link, powerdown}
use dvm.Vm.Foreground.{Front, Terminal, Shown, foreground}

-- What ends the wait in `supervise`: QEMU exits, with an error or without one, or there is a signal,
-- or the context is cancelled.
pub data Ending : Type 0 where
  exited_badly : Ending
  exited_well : Ending
  signalled : Ending
  cancelled : Ending

-- Whether QEMU exits within the timeout of a shutdown, and within five seconds of a termination.
pub record Guest : Type 0 where
  pub ending : Ending
  pub stops_in_time : Bool
  pub stops_on_terminate : Bool

pub data Signal : Type 0 where
  terminate : Signal
  kill : Signal

-- What is done to QEMU: the monitor, if there is one, after the command, and the signals sent.
pub record Stopped : Type 0 where
  pub monitor : Option Link
  pub signals : List Signal

abbrev pub ask_powerdown : Option Link → Option Link
ask_powerdown none = none
ask_powerdown (some l) = some (powerdown l).1

unfoldable pub signals_sent : Guest → List Signal
signals_sent g =
    if g.stops_in_time
    then []
    else if g.stops_on_terminate
    then terminate ∷ []
    else terminate ∷ kill ∷ []

-- `shutdown`: each way out has received the end of QEMU, and there is no error.
unfoldable pub shutdown : Guest → Option Link → Stopped
shutdown g qmp = record { monitor = ask_powerdown qmp; signals = signals_sent g }

pub data SuperviseError : Type 0 where
  qemu_exited : SuperviseError

unfoldable pub after_ending :
    Ending → Guest → Option Link → Result SuperviseError (Unit {0}) × Stopped
after_ending exited_badly g qmp = (err qemu_exited, record { monitor = qmp; signals = [] })
after_ending exited_well g qmp = (ok tt, record { monitor = qmp; signals = [] })
after_ending signalled g qmp = (ok tt, shutdown g qmp)
after_ending cancelled g qmp = (ok tt, shutdown g qmp)

-- What is shown, how it ends, and what is done to QEMU
pub record Supervised : Type 0 where
  pub shown : Shown
  pub result : Result SuperviseError (Unit {0})
  pub stopped : Stopped

abbrev pub supervised_with : Shown → Result SuperviseError (Unit {0}) × Stopped → Supervised
supervised_with shown (result, stopped) = record {
  shown = shown;
  result = result;
  stopped = stopped;
}

-- `supervise`: the end of QEMU and signals are looked at only behind the console or the readiness.
unfoldable pub supervise : Front → Terminal → Guest → Option Link → Supervised
supervise f t g qmp =
    let shown = foreground f t in supervised_with shown (after_ending g.ending g qmp)
