-- ===== src/Vm/Ready.antt =====
-- internal/vm/readiness.go and ports.go: waiting for TCP ports, and the check that the host's ports
-- are free.
use dvm.Base.{
  ℤ, pos, negsuc, zero, suc, Bytes, codes, ◌≟◌, is_empty, itoa, Bool, List, [], ◌∷◌, ◌++◌,
}
use dvm.Base.{if◌then◌else◌, Result, ok, err}
use dvm.Qemu.{PortForward}

pub record Probe : Type 0 where
  pub name : Bytes
  pub addr : Bytes

-- What one round of `dialUntil` meets: the context has ended, the connection is made, or it is not,
-- and the context ends or does not end in the pause behind it.
pub data Round : Type 0 where
  over : Round
  connected : Round
  refused : Round
  over_in_pause : Round

-- `dialUntil` on the rounds to come: whether a connection was made, and the rounds that are left.
-- The context has a deadline, so the rounds end.
unfoldable pub dial_until : List Round → Bool × List Round
dial_until [] = (Bool.false, [])
dial_until (over ∷ rounds) = (Bool.false, over ∷ rounds)
dial_until (connected ∷ rounds) = (Bool.true, rounds)
dial_until (over_in_pause ∷ rounds) = (Bool.false, over ∷ rounds)
dial_until (refused ∷ rounds) = dial_until rounds

unfoldable pub wait_next :
    (List Round → Result Probe (Unit {0})) → Probe → Bool × List Round → Result Probe (Unit {0})
wait_next next p (Bool.true, rounds) = next rounds
wait_next next p (Bool.false, rounds) = err p

-- `WaitTCP`: the probes in order; the error names the probe that timed out.
unfoldable pub wait_tcp : List Probe → List Round → Result Probe (Unit {0})
wait_tcp [] rounds = ok tt
wait_tcp (p ∷ probes) rounds = wait_next (wait_tcp probes) p (dial_until rounds)

unfoldable pub ip_or_default : Bytes → Bytes
ip_or_default ip = if is_empty ip then codes "127.0.0.1" else ip

-- The network and the address that `CheckPortsFree` listens on.
unfoldable pub listen_addr : PortForward → Bytes × Bytes
listen_addr p = (
  if p.proto ≟ codes "udp" then codes "udp" else codes "tcp",
  ip_or_default p.host_ip ++ (b':' ∷ itoa p.host_port),
)

abbrev next_port : ℤ → ℤ
next_port (pos n) = pos (suc n)
next_port (negsuc zero) = pos 0
next_port (negsuc (suc n)) = negsuc n

-- `portConflict`
unfoldable pub port_conflict : PortForward → Bytes
port_conflict p =
    codes "port "
    ++ (itoa p.host_port
        ++ (codes " is already in use on "
            ++ (ip_or_default p.host_ip
                ++ (codes ".\nStop the other process or remap with --port "
                    ++ (itoa (next_port p.host_port) ++ (b':' ∷ itoa p.guest_port))))))

-- `CheckPortsFree`: the error names the first forward whose port is taken.
unfoldable pub check_ports_free :
    (Bytes × Bytes → Bool) → List PortForward → Result PortForward (Unit {0})
check_ports_free can_listen [] = ok tt
check_ports_free can_listen (p ∷ ports) =
    let rest = check_ports_free can_listen ports in
    if can_listen (listen_addr p) then rest else err p
