-- ===== src/App/Engines.antt =====
-- The two engines get the same forwards.
use dvm.Base.{ℤ, pos, ltb_int, Bytes, List, [], ◌∷◌, ◌++◌, map}
use dvm.Base.{◌≡◌, refl, ap, ◌∙◌, Bool-cases, inl, inr}
use dvm.Config.{Config, Port}
use dvm.Qemu.{PortForward}
use dvm.Vz.Run.{Forward}
use dvm.App.Flags.{pick}
use dvm.App.Forwards.{loopback, forward, ssh_forward, port_forwards}
use dvm.App.StartVz.{vz_forward, vz_forwards, vz_ssh_forward}

-- A forward of QEMU in the words of the other engine
abbrev pub as_vz : PortForward → Forward
as_vz p = record {
  proto = p.proto;
  host_ip = p.host_ip;
  host_port = p.host_port;
  guest_port = p.guest_port;
}

vz_forward-forward : (bind : Bytes) (p : Port) → vz_forward bind p ≡ as_vz (forward bind p)
unfolding vz_forward forward
vz_forward-forward bind p = refl

map_forwards :
    (bind : Bytes) (ports : List Port) (more : List Forward) (more' : List PortForward)
    → more ≡ map as_vz more'
    → map (vz_forward bind) ports ++ more ≡ map as_vz (map (forward bind) ports ++ more')
map_forwards bind [] more more' e = e
map_forwards bind (p ∷ ports) more more' e =
    ap (λ f. f ∷ (map (vz_forward bind) ports ++ more)) (vz_forward-forward bind p)
    ∙ ap (λ l. as_vz (forward bind p) ∷ l) (map_forwards bind ports more more' e)

vz_ssh_forward-ssh_forward :
    (bind : Bytes) (port : ℤ) → vz_ssh_forward bind port ≡ map as_vz (ssh_forward bind port)
unfolding vz_ssh_forward ssh_forward
vz_ssh_forward-ssh_forward bind port = elim (Bool-cases (ltb_int (pos 0) port)) [
  | inl y ↦ rw (vz_ssh_forward, ssh_forward, y) refl
  | inr n ↦ rw (vz_ssh_forward, ssh_forward, n) refl
]

-- `startVZ` makes the forwards that `portForwards` makes for QEMU, in the same order.
pub vz_forwards-port_forwards : (c : Config) → vz_forwards c ≡ map as_vz (port_forwards c)
unfolding vz_forwards port_forwards
vz_forwards-port_forwards c =
    let bind = pick c.network.bind_address loopback in
    map_forwards bind c.ports _ (ssh_forward bind c.network.ssh_port)
      (vz_ssh_forward-ssh_forward bind c.network.ssh_port)
