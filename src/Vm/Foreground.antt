-- ===== src/Vm/Foreground.antt =====
-- The part of `supervise` of internal/vm/lifecycle.go before the wait: the console, or the readiness
-- of the guest and its services; with `dialSerial` and the terminal of `interactive` of console.go.
use dvm.Base.{
  ℕ, ◌==◌, Bytes, Bool, true, false, ◌&&◌, List, [], ◌∷◌, ◌++◌, map, if◌then◌else◌, Result, ok, err,
}
use dvm.Vm.Ready.{Probe, Round, dial_until, wait_tcp}
use dvm.Vm.Console.{Keystroke, Left, typing, read_error, interactive, default_detach_key}

-- One round of `dialSerial`: whether the connection is made, and if not, whether the deadline has
-- passed.
pub record SerialRound : Type 0 where
  pub connected : Bool
  pub late : Bool

-- `dialSerial` on the rounds to come, which the deadline bounds
unfoldable pub dial_serial : List SerialRound → Bool
dial_serial [] = false
dial_serial (r ∷ rounds) =
    let rest = dial_serial rounds in if r.connected then true else if r.late then false else rest

-- The terminal: whether it is one and can be made raw, and the state it is in
pub record Screen : Type 0 where
  pub raw : Bool
  pub mirrored : Bool

pub record Session : Type 0 where
  pub sent : Bytes
  pub left : Left
  pub screen : Screen

-- The terminal while the console is attached
unfoldable pub entered : Bool → Bool → Screen → Screen
entered is_terminal can_raw old = record {
  raw = if is_terminal && can_raw then true else old.raw;
  mirrored = true;
}

-- Behind the keys the input ends, with an error of the read.
abbrev pub left_by : Left → Left
left_by typing = read_error
left_by l = l

-- What the deferred calls of `interactive` do to the terminal, once it is left
unfoldable pub after_session : Bool → Bool → Screen → Bytes × Left → Session
unfolding entered
after_session is_terminal can_raw old (sent, l) =
    let during = entered is_terminal can_raw old in
    record {
      sent = sent;
      left = left_by l;
      screen = record {
        raw = if is_terminal && can_raw then old.raw else during.raw;
        mirrored = false;
      };
    }

-- `interactive` with the terminal
unfoldable pub console_session : Bool → Bool → Screen → ℕ → List Keystroke → Session
unfolding interactive after_session
console_session is_terminal can_raw old key ks =
    after_session is_terminal can_raw old (interactive key ks)

-- What is told to the user
pub data Notice : Type 0 where
  attached : Notice
  detached : Notice
  probing : Probe → Notice
  not_ready : Probe → Notice
  ready : Notice
  services : Notice
  service : Bytes → Notice
  running : Notice

-- The options for this part
pub record Front : Type 0 where
  pub console : Bool
  pub detach_key : ℕ
  pub readiness : List Probe
  pub services : List Bytes

-- What it meets: the rounds of the dials, the keys, and the terminal
pub record Terminal : Type 0 where
  pub serial_rounds : List SerialRound
  pub probe_rounds : List Round
  pub keys : List Keystroke
  pub is_terminal : Bool
  pub can_raw : Bool
  pub screen : Screen

-- The probes that `WaitTCP` reports before it dials
unfoldable pub announced : List Probe → List Round → List Probe
announced [] rounds = []
announced (p ∷ probes) rounds =
    let (reached, left) = dial_until rounds in
    let rest = announced probes left in p ∷ (if reached then rest else [])

abbrev pub verdict_notice : Result Probe (Unit {0}) → Notice
verdict_notice (ok u) = ready
verdict_notice (err p) = not_ready p

unfoldable pub readiness_notices : List Probe → List Round → List Notice
unfolding announced
readiness_notices [] rounds = []
readiness_notices (p ∷ probes) rounds =
    map probing (announced (p ∷ probes) rounds)
    ++ (verdict_notice (wait_tcp (p ∷ probes) rounds) ∷ [])

-- What is shown and sent, and the terminal behind it
pub record Shown : Type 0 where
  pub notices : List Notice
  pub sent : Bytes
  pub screen : Screen

abbrev pub shown_session : Session → Shown
shown_session s = record { notices = attached ∷ detached ∷ []; sent = s.sent; screen = s.screen }

-- A key of zero stands for the default.
unfoldable pub detach_key_or : ℕ → ℕ
detach_key_or key = if key == 0 then default_detach_key else key

unfoldable pub show_console : Front → Terminal → Shown
unfolding console_session dial_serial detach_key_or
show_console f t =
    if dial_serial t.serial_rounds
    then shown_session
        (console_session t.is_terminal t.can_raw t.screen (detach_key_or f.detach_key) t.keys)
    else record { notices = attached ∷ detached ∷ []; sent = []; screen = t.screen }

-- `printServices`, less the empty lines
unfoldable pub print_services : List Bytes → List Notice
print_services [] = []
print_services (s ∷ ss) = services ∷ map service (s ∷ ss)

-- The readiness, and the services
unfoldable pub show_services : Front → Terminal → Shown
unfolding readiness_notices print_services
show_services f t = record {
  notices =
      readiness_notices f.readiness t.probe_rounds ++ (print_services f.services ++ (running ∷ []));
  sent = [];
  screen = t.screen;
}

-- The two branches of `supervise` before its wait
unfoldable pub foreground : Front → Terminal → Shown
unfolding show_console show_services
foreground f t = if f.console then show_console f t else show_services f t
