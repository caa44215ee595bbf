-- ===== src/Vz/Network.antt =====
-- internal/vz/forward_darwin.go: `manageNetwork`, the proxies that it starts, and `dialUntil`. The
-- bytes that a proxy relays are left out.
use dvm.Base.{
  ℕ, ℤ, Bytes, codes, itoa, is_empty, contains, Bool, true, false, ◌&&◌, Option, none, some, List,
  [], ◌∷◌, ◌++◌, map, if◌then◌else◌,
}
use dvm.Vm.{Round, over, connected, refused, over_in_pause}
use dvm.Vz.Addresses.{Poll, wait_guest_ip}
use dvm.Vz.Run.{Forward, Options, proxied}

-- net.JoinHostPort
unfoldable pub join_host_port : Bytes → Bytes → Bytes
join_host_port host port =
    if contains host (codes ":")
    then b'[' ∷ (host ++ (codes "]:" ++ port))
    else host ++ (b':' ∷ port)

-- `dialUntil` on the rounds to come: whether there was a connection, and the rounds that are left.
-- When the context has ended, it stays so.
unfoldable pub dial_guest : List Round → Bool × List Round
dial_guest [] = (false, [])
dial_guest (over ∷ rounds) = (false, [])
dial_guest (over_in_pause ∷ rounds) = (false, [])
dial_guest (connected ∷ rounds) = (true, rounds)
dial_guest (refused ∷ rounds) = dial_guest rounds

-- What is told
pub data Notice : Type 0 where
  no_address : Notice
  waiting_for : Bytes → Notice
  timed_out : Bytes → Notice
  ready : Notice
  services : Notice
  service : Bytes → Notice

abbrev pub guest_addr : Bytes → ℤ → Bytes
guest_addr ip port = join_host_port ip (itoa port)

abbrev pub outcome_of : Bool → Bytes → List Notice
outcome_of true addr = []
outcome_of false addr = timed_out addr ∷ []

-- The loop over the ports to probe: whether all were reached, and what is told on the way
unfoldable pub probe_guest : Bytes → List ℤ → List Round → Bool × List Notice
unfolding dial_guest
probe_guest ip [] rounds = (true, [])
probe_guest ip (port ∷ ports) rounds =
    let (reached, left) = dial_guest rounds in
    let (others, notices) = probe_guest ip ports left in
    let addr = guest_addr ip port in
    (reached && others, waiting_for addr ∷ (outcome_of reached addr ++ notices))

unfoldable pub ready_notice : Bool × List Notice → List Notice
ready_notice (ok, notices) = notices ++ (if ok then ready ∷ [] else [])

unfoldable pub readiness : Bytes → List ℤ → List Round → List Notice
unfolding probe_guest ready_notice
readiness ip [] rounds = []
readiness ip (port ∷ ports) rounds = ready_notice (probe_guest ip (port ∷ ports) rounds)

-- A proxy: where it listens, and where it connects to
pub record Proxy : Type 0 where
  pub listens : Bytes
  pub connects : Bytes

-- The addresses of `proxyPort`
unfoldable pub proxy_of : Bytes → Forward → Proxy
proxy_of ip p = record {
  listens =
      join_host_port (if is_empty p.host_ip then codes "127.0.0.1" else p.host_ip)
        (itoa p.host_port);
  connects = guest_addr ip p.guest_port;
}

pub record Network : Type 0 where
  pub proxies : List Proxy
  pub notices : List Notice

unfoldable pub service_notices : List Bytes → List Notice
service_notices [] = []
service_notices (s ∷ ss) = services ∷ map service (s ∷ ss)

unfoldable pub with_address : Options → List Round → Option Bytes → Network
unfolding readiness service_notices proxy_of
with_address o rounds none = record { proxies = []; notices = no_address ∷ [] }
with_address o rounds (some ip) = record {
  proxies = map (proxy_of ip) (proxied o.ports);
  notices = readiness ip o.readiness_guest_ports rounds ++ service_notices o.services;
}

-- `manageNetwork`
unfoldable pub manage_network : List ℕ → Options → List Poll → List Round → Network
unfolding with_address
manage_network mac o polls rounds = with_address o rounds (wait_guest_ip mac polls)

-- What a proxy meets at its listener: a client whose connection to the guest succeeds or fails, or
-- the end of the listener.
pub data Accepted : Type 0 where
  client : Bool → Accepted
  closed : Accepted

-- What becomes of a client: it is closed, and before that its bytes are relayed, if the guest was
-- reached.
pub data Piped : Type 0 where
  relayed_and_closed : Piped
  only_closed : Piped

-- `pipe`
unfoldable pub pipe : Bool → Piped
pipe true = relayed_and_closed
pipe false = only_closed

-- The loop of `proxyPort`, if it can listen
unfoldable pub serve : List Accepted → List Piped
serve [] = []
serve (closed ∷ events) = []
serve (client reached ∷ events) = pipe reached ∷ serve events

unfoldable pub proxy_port : Bool → List Accepted → List Piped
proxy_port can_listen events = if can_listen then serve events else []
