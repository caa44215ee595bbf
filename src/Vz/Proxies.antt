-- ===== src/Vz/Proxies.antt =====
-- What becomes of the network of a guest.
use dvm.Base.{
  ℕ, zero, suc, leb, length, ℤ, Bytes, codes, ◌≟◌, itoa, is_empty, Bool, true, false, ◌&&◌, Option,
  none, some, List, [], ◌∷◌, ◌++◌, map, if◌then◌else◌,
}
use dvm.Base.{◌≡◌, refl, ap, sym, arith}
use mathlib.Core.Path.{ap₂}
use dvm.Vm.{Round, over, connected, refused, over_in_pause}
use dvm.Vm.Waiting.{connections}
use dvm.Vz.Addresses.{Poll, wait_guest_ip}
use dvm.Vz.Run.{Forward, Options, proxied}
use dvm.Vz.Network.{
  dial_guest, Notice, no_address, waiting_for, timed_out, ready, guest_addr, outcome_of,
  probe_guest, ready_notice, readiness, proxy_of, Proxy, Network, join_host_port, services, service,
  service_notices, with_address, manage_network,
}

-- The ports are asked in order, and each one that is reached takes one connection; those behind the
-- last connection time out.
abbrev pub told : Bytes → List ℤ → ℕ → List Notice
told ip [] n = []
told ip (port ∷ ports) zero =
    waiting_for (join_host_port ip (itoa port))
    ∷ timed_out (join_host_port ip (itoa port))
    ∷ told ip ports zero
told ip (port ∷ ports) (suc n) = waiting_for (join_host_port ip (itoa port)) ∷ told ip ports n

-- What a dial leaves of the connections
abbrev Dialled : Bool × List Round → ℕ → Type 0
Dialled (true, left) n = n ≡ suc (connections left)
Dialled (false, left) n = (n ≡ 0) × (left ≡ [])

dial_guest-Dialled : (rounds : List Round) → Dialled (dial_guest rounds) (connections rounds)
unfolding dial_guest
dial_guest-Dialled [] = (refl, refl)
dial_guest-Dialled (over ∷ rounds) = (refl, refl)
dial_guest-Dialled (over_in_pause ∷ rounds) = (refl, refl)
dial_guest-Dialled (connected ∷ rounds) = refl
dial_guest-Dialled (refused ∷ rounds) = dial_guest-Dialled rounds

abbrev probed : Bytes → List ℤ → ℕ → Bool × List Notice
probed ip ports n = (leb (length ports) n, told ip ports n)

leb-suc : (a b : ℕ) → leb (suc a) (suc b) ≡ leb a b
leb-suc a b = ground arith

leb-zero : (a : ℕ) → leb (suc a) 0 ≡ false
leb-zero a = ground arith

leb-nothing : (b : ℕ) → leb 0 b ≡ true
leb-nothing b = ground arith

-- One port, with what the others come to
probe_next :
    (ip : Bytes) (port : ℤ) (ports : List ℤ) (x : Bool × List Round) (n : ℕ)
    → Dialled x n
    → ((rounds : List Round) → probe_guest ip ports rounds ≡ probed ip ports (connections rounds))
    → ◌≡◌ {A = Bool × List Notice}
        (
          x.0 && (probe_guest ip ports x.1).0,
          waiting_for (guest_addr ip port)
              ∷ (outcome_of x.0 (guest_addr ip port) ++ (probe_guest ip ports x.1).1),
        )
        (probed ip (port ∷ ports) n)
probe_next ip port ports (true, left) n d h =
    rw (d, h left) (ap₂ (λ b l. (b, l)) (sym (leb-suc (length ports) (connections left))) refl)
probe_next ip port ports (false, left) n (z, e) h =
    rw (z, h left, e) (ap₂ (λ b l. (b, l)) (sym (leb-zero (length ports))) refl)

probe_guest-told :
    (ip : Bytes) (ports : List ℤ) (rounds : List Round)
    → probe_guest ip ports rounds ≡ probed ip ports (connections rounds)
unfolding probe_guest
probe_guest-told ip [] rounds = ap₂ (λ b l. (b, l)) (sym (leb-nothing (connections rounds))) refl
probe_guest-told ip (port ∷ ports) rounds =
    probe_next ip port ports (dial_guest rounds) (connections rounds) (dial_guest-Dialled rounds)
      (λ rs. probe_guest-told ip ports rs)

-- The loop over the ports, if there are any, and what is told behind it
abbrev pub readiness_told : Bytes → List ℤ → ℕ → List Notice
readiness_told ip [] n = []
readiness_told ip (port ∷ ports) n =
    told ip (port ∷ ports) n ++ (if leb (length (port ∷ ports)) n then ready ∷ [] else [])

readiness-told :
    (ip : Bytes) (ports : List ℤ) (rounds : List Round)
    → readiness ip ports rounds ≡ readiness_told ip ports (connections rounds)
unfolding readiness ready_notice
readiness-told ip [] rounds = refl
readiness-told ip (port ∷ ports) rounds =
    ap ready_notice (probe_guest-told ip (port ∷ ports) rounds)

abbrev pub or_loopback : Bytes → Bytes
or_loopback [] = codes "127.0.0.1"
or_loopback (c ∷ s) = c ∷ s

-- The proxy of one forward: none for udp, and the loopback address where there is none
abbrev pub proxy_to : Bytes → Forward → List Proxy
proxy_to ip p =
    if p.proto ≟ codes "udp"
    then []
    else record {
      listens = join_host_port (or_loopback p.host_ip) (itoa p.host_port);
      connects = join_host_port ip (itoa p.guest_port);
    }
      ∷ []

abbrev pub proxies_to : Bytes → List Forward → List Proxy
proxies_to ip [] = []
proxies_to ip (p ∷ ports) = proxy_to ip p ++ proxies_to ip ports

proxy_of-or_else :
    (ip : Bytes) (p : Forward)
    → proxy_of ip p ≡ record {
      listens = join_host_port (or_loopback p.host_ip) (itoa p.host_port);
      connects = join_host_port ip (itoa p.guest_port);
    }
unfolding proxy_of
proxy_of-or_else ip p =
    ap
      (λ h. record {
        listens = join_host_port h (itoa p.host_port);
        connects = join_host_port ip (itoa p.guest_port);
      })
      (host_or p.host_ip)
  where
    host_or : (s : Bytes) → (if is_empty s then codes "127.0.0.1" else s) ≡ or_loopback s
    host_or [] = refl
    host_or (c ∷ s) = refl

one_more :
    (f : Forward → Proxy) (skipped : Bool) (p : Forward) (rest : List Forward) {q : Proxy}
    {l : List Proxy}
    → f p ≡ q
    → map f rest ≡ l
    → map f (if skipped then rest else p ∷ rest) ≡ (if skipped then [] else q ∷ []) ++ l
one_more f true p rest e h = h
one_more f false p rest e h = ap₂ (λ x l. x ∷ l) e h

proxied-proxies_to :
    (ip : Bytes) (ports : List Forward) → map (proxy_of ip) (proxied ports) ≡ proxies_to ip ports
unfolding proxied
proxied-proxies_to ip [] = refl
proxied-proxies_to ip (p ∷ ports) =
    one_more (proxy_of ip) (p.proto ≟ codes "udp") p (proxied ports) (proxy_of-or_else ip p)
      (proxied-proxies_to ip ports)

abbrev pub heading : List Bytes → List Notice
heading [] = []
heading (s ∷ ss) = services ∷ []

-- A heading, if there are services, and these
abbrev pub listed : List Bytes → List Notice
listed ss = heading ss ++ map service ss

service_notices-listed : (ss : List Bytes) → service_notices ss ≡ listed ss
unfolding service_notices
service_notices-listed [] = refl
service_notices-listed (s ∷ ss) = refl

-- A guest whose address is known, by the number of connections that can be made in time
abbrev pub network_of : Options → ℕ → Option Bytes → Network
network_of o n none = record { proxies = []; notices = no_address ∷ [] }
network_of o n (some ip) = record {
  proxies = proxies_to ip o.ports;
  notices = readiness_told ip o.readiness_guest_ports n ++ listed o.services;
}

with_address-network_of :
    (o : Options) (rounds : List Round) (ip : Option Bytes)
    → with_address o rounds ip ≡ network_of o (connections rounds) ip
unfolding with_address
with_address-network_of o rounds none = refl
with_address-network_of o rounds (some ip) =
    ap₂ (λ ps ns. record { proxies = ps; notices = ns }) (proxied-proxies_to ip o.ports)
      (ap₂ (λ l m. l ++ m) (readiness-told ip o.readiness_guest_ports rounds)
        (service_notices-listed o.services))

-- Without an address of the guest no port is forwarded and nothing but this is told. With one, each
-- forward that is not udp gets, in order, a proxy from its port on the host to its port of the guest; the ports to probe are told in order, as many as there are
-- connections in time are reached and the others time out, and the guest is ready exactly if there
-- are ports to probe and all are reached; the services, if there are any, are told behind a heading in
-- every case.
pub manage_network-network_of :
    (mac : List ℕ) (o : Options) (polls : List Poll) (rounds : List Round)
    → manage_network mac o polls rounds
      ≡ network_of o (connections rounds) (wait_guest_ip mac polls)
unfolding manage_network
manage_network-network_of mac o polls rounds =
    with_address-network_of o rounds (wait_guest_ip mac polls)
