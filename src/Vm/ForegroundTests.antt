-- ===== src/Vm/ForegroundTests.antt =====
-- Tests of what is shown before the wait, and of the processes, and the theorems at concrete inputs.
use dvm.Base.{
  ℤ, pos, codes, ◌≟◌, true, false, Option, some, [], ◌∷◌, map, ok, ◌≡◌, refl, arith, itoa, digits,
}
use dvm.Vm.State.{pid_line, acquire_lock}
use dvm.Vm.Ready.{Probe, refused, connected, over, port_conflict, ip_or_default}
use dvm.Vm.Foreground.{
  attached, detached, Front, Terminal, probing, not_ready, services, service, running, foreground,
}
use dvm.Vm.Stop.{Guest, exited_well, signals_sent}
use dvm.Vm.Processes.{
  SignalAnswer, not_permitted, unix_host, acquire_lock-not_permitted, accel_notices, accelerated,
  process_call, ask_to_end, end_at_once, enable_vt_output,
}

abbrev http : Probe
http = record { name = codes "tcp/80"; addr = codes "127.0.0.1:80" }

abbrev ssh : Probe
ssh = record { name = codes "tcp/22"; addr = codes "127.0.0.1:22" }

abbrev front : Front
front = record {
  console = false;
  detach_key = 0;
  readiness = http ∷ ssh ∷ [];
  services = codes "web" ∷ [];
}

-- One of two ports answers.
abbrev terminal : Terminal
terminal = record {
  serial_rounds =
      record { connected = false; late = false } ∷ record { connected = true; late = false } ∷ [];
  probe_rounds = refused ∷ connected ∷ over ∷ [];
  keys =
      record { closed = false; byte = some 97; writable = true; failed = false }
      ∷ record { closed = false; byte = some 29; writable = true; failed = false }
      ∷ [];
  is_terminal = true;
  can_raw = true;
  screen = record { raw = false; mirrored = false };
}

shown_services :
    (foreground front terminal).notices
    ≡ probing http ∷ probing ssh ∷ not_ready ssh ∷ services ∷ service (codes "web") ∷ running ∷ []
unfolding foreground dvm.Vm.Ready.dial_until dvm.Vm.Ready.wait_tcp dvm.Vm.Ready.wait_next
shown_services = refl

-- A key and then Ctrl-]
shown_console :
    ((foreground (record front { console = true }) terminal).sent ≡ codes "a")
    × ((foreground (record front { console = true }) terminal).notices ≡ attached ∷ detached ∷ [])
unfolding foreground dvm.Vm.Console.typed dvm.Vm.Console.after_byte
shown_console = (refl, refl)

-- A daemon of another user
abbrev signal : ℤ → Option SignalAnswer
signal pid = some not_permitted

acquire_lock-not_permitted_example :
    acquire_lock (unix_host signal) (pos 7) (some (pid_line (pos 41)))
    ≡ (ok tt, some (pid_line (pos 7)))
acquire_lock-not_permitted_example = acquire_lock-not_permitted signal (pos 7) 41 (omega arith) refl

hvf : accel_notices (codes "darwin") (codes "hvf") ≡ accelerated (codes "hvf") ∷ []
unfolding accel_notices ◌≟◌
hvf = refl

conflict :
    port_conflict
      (record { proto = codes "tcp"; host_ip = []; host_port = pos 80; guest_port = pos 8080 })
    ≡ codes
        "port 80 is already in use on 127.0.0.1.\nStop the other process or remap with --port 81:8080"
unfolding port_conflict itoa digits ip_or_default
conflict = refl

-- A guest that stops only when it is asked to
abbrev slow : Guest
slow = record { ending = exited_well; stops_in_time = false; stops_on_terminate = true }

asked : map (process_call (codes "linux")) (signals_sent slow) ≡ ask_to_end ∷ []
unfolding process_call signals_sent ◌≟◌
asked = refl

ended_at_once : map (process_call (codes "windows")) (signals_sent slow) ≡ end_at_once ∷ []
unfolding process_call signals_sent ◌≟◌
ended_at_once = refl

coloured :
    (enable_vt_output (codes "windows") 4 true (some 3) ≡ some 7)
    × (enable_vt_output (codes "linux") 4 true (some 3) ≡ some 3)
unfolding enable_vt_output ◌≟◌
coloured = (refl, refl)
