-- ===== src/App/Forwards.antt =====
-- internal/app/app.go: forwards, service lines and readiness probes from the configuration.
use dvm.Base.{Bytes, codes, is_empty, itoa, Bool, false, not, ◌==◌, List, [], ◌∷◌, ◌++◌, map}
use dvm.Base.{ℤ, pos, negsuc, ltb_int, Option, none, some, if◌then◌else◌}
use dvm.Config.{Port, Config}
use dvm.Qemu.{PortForward}
use dvm.Vm.{Probe}
use dvm.App.Flags.{pick}

abbrev pub loopback : Bytes
loopback = codes "127.0.0.1"

unfoldable pub forward : Bytes → Port → PortForward
forward bind p = record {
  proto = pick p.protocol (codes "tcp");
  host_ip = bind;
  host_port = p.host;
  guest_port = p.guest;
}

-- The forward of the guest's port 22, if --ssh-port is set.
unfoldable pub ssh_forward : Bytes → ℤ → List PortForward
ssh_forward bind port =
    if ltb_int (pos 0) port
    then record { proto = codes "tcp"; host_ip = bind; host_port = port; guest_port = pos 22 } ∷ []
    else []

-- `portForwards`; `startVZ` builds the same list.
unfoldable pub port_forwards : Config → List PortForward
unfolding forward ssh_forward
port_forwards c =
    let bind = pick c.network.bind_address loopback in
    map (forward bind) c.ports ++ ssh_forward bind c.network.ssh_port

-- `seedUsername`
unfoldable pub seed_username : Config → Bytes
seed_username c = pick c.seed.username (codes "ubuntu")

-- "%s: %s", or "%s: 127.0.0.1:%d -> guest %d" with a name made of the port
unfoldable pub port_line : Port → Bytes
port_line p =
    if not (is_empty p.url)
    then p.name ++ (codes ": " ++ p.url)
    else pick p.name (codes "port-" ++ itoa p.host)
      ++ (codes ": 127.0.0.1:" ++ (itoa p.host ++ (codes " -> guest " ++ itoa p.guest)))

-- `serviceLines`
unfoldable pub service_lines : Config → List Bytes
unfolding port_line
service_lines c =
    map port_line c.ports
    ++ (if ltb_int (pos 0) c.network.ssh_port
        then (codes "ssh: ssh -p "
            ++ (itoa c.network.ssh_port ++ (b' ' ∷ (seed_username c ++ codes "@127.0.0.1"))))
          ∷ []
        else [])

unfoldable pub probe : ℤ → Probe
probe port = record { name = codes "tcp/" ++ itoa port; addr = codes "127.0.0.1:" ++ itoa port }

-- `readinessProbes`
unfoldable pub readiness_probes : Config → List Probe
unfolding probe
readiness_probes c = map probe c.readiness.tcp_ports

abbrev pub same_int : ℤ → ℤ → Bool
same_int (pos a) (pos b) = a == b
same_int (pos a) (negsuc b) = false
same_int (negsuc a) (pos b) = false
same_int (negsuc a) (negsuc b) = a == b

-- The map `hostToGuest`, the last write first.
unfoldable pub port_map : List Port → List (ℤ × ℤ) → List (ℤ × ℤ)
port_map [] m = m
port_map (p ∷ ps) m = port_map ps ((p.host, p.guest) ∷ m)

unfoldable pub lookup_port : ℤ → List (ℤ × ℤ) → Option ℤ
lookup_port hp [] = none
lookup_port hp ((k, g) ∷ m) = if same_int hp k then some g else lookup_port hp m

unfoldable pub host_to_guest : Config → List (ℤ × ℤ)
unfolding port_map
host_to_guest c =
    let m = port_map c.ports [] in
    if ltb_int (pos 0) c.network.ssh_port then (c.network.ssh_port, pos 22) ∷ m else m

unfoldable pub guest_port_of : List (ℤ × ℤ) → ℤ → ℤ
unfolding lookup_port
guest_port_of m hp = elim (lookup_port hp m) [ none ↦ hp | some gp ↦ gp ]

-- `readinessGuestPorts`
unfoldable pub readiness_guest_ports : Config → List ℤ
unfolding guest_port_of
readiness_guest_ports c = map (guest_port_of (host_to_guest c)) c.readiness.tcp_ports
