-- ===== src/Config/Specs.antt =====
-- What ParsePortSpec accepts, and that it reads every forward that can be written.
use dvm.Base.{ℕ, suc, Bytes, codes, ◌≟◌, ≟_iff, true, false, drop}
use dvm.Base.{some, [], ◌∷◌, ◌++◌, ℤ, pos, IsPort, itoa, atoi}
use dvm.Base.{length, All, All-append, Lacks, cut, cut-append, last_index-append, last_index-none}
use dvm.Base.{IsDigit, itoa-All, atoi-itoa, trim_space, trim_space-digits, to_lower}
use dvm.Base.{ok, need, ◌>>=◌, guard-eq-ok, Option-cases}
use dvm.Base.{take-append, Bool-cases, is_digit}
use dvm.Base.{◌≡◌, ◌≢◌, ◌⊎◌, inl, inr, refl, arith}
use dvm.Config.Defs.{Port}
use dvm.Config.Validate.{out_of_range}
use dvm.Config.PortSpec.{bad_host, bad_guest, split_protocol, known_protocol, parse_port}
use dvm.Config.PortSpec.{parse_pair, parse_parts, parse_port_spec}
use dvm.Config.Valid.{HasPorts, out_of_range-false, out_of_range-IsPort}

abbrev pub IsProtocol : Bytes → Type 0
IsProtocol proto = (proto ≡ codes "tcp") ⊎ (proto ≡ codes "udp")

parse_port-IsPort : (t : Bytes) {n : ℤ} → parse_port t ≡ some n → IsPort n
unfolding parse_port
parse_port-IsPort t {n} h = elim (Option-cases (atoi (trim_space t))) [
  | inl e ↦ absurd (cc (rw (e, parse_port) at h))
  | inr (m, e) ↦ elim (Bool-cases (out_of_range m)) [
    | inl bad ↦ absurd (cc (rw (e, parse_port, bad) at h))
    | inr good ↦
        let same : some m ≡ some n = rw (e, parse_port, good) at h in
        ground (arith, out_of_range-false n)
  ]
]

parse_pair-ok :
    (proto s : Bytes) {p : Port}
    → parse_pair proto s ≡ ok p
    → HasPorts p × (p.protocol ≡ proto) × (p.name ≡ []) × (p.url ≡ [])
unfolding parse_pair
parse_pair-ok proto s {p} h = elim (Option-cases (cut s b':')) [
  | inl e ↦ absurd (cc (rw (e, parse_pair) at h))
  | inr ((host, guest), e) ↦ pair-ok host guest (rw (e, parse_pair) at h)
]
  where
    pair-ok :
        (host guest : Bytes)
        → (do
          m ← need (bad_host host) (parse_port host)
          n ← need (bad_guest guest) (parse_port guest)
          ok (record { name = []; protocol = proto; host = m; guest = n; url = [] }))
          ≡ ok p
        → HasPorts p × (p.protocol ≡ proto) × (p.name ≡ []) × (p.url ≡ [])
    pair-ok host guest k = elim (Option-cases (parse_port host)) [
      | inl a ↦ absurd (cc (rw a at k))
      | inr (m, a) ↦ elim (Option-cases (parse_port guest)) [
        | inl b ↦ absurd (cc (rw (a, b) at k))
        | inr (n, b) ↦ ground (arith, parse_port-IsPort host a, parse_port-IsPort guest b)
      ]
    ]

known_protocol-IsProtocol : (proto : Bytes) → known_protocol proto ≡ true → IsProtocol proto
known_protocol-IsProtocol proto h =
    ground (arith, ≟_iff proto (codes "tcp"), ≟_iff proto (codes "udp"))

-- An accepted forward has both ports in 1..65535 and the protocol tcp or udp; it has no name and no
-- URL.
pub parse_port_spec-HasPorts :
    (s : Bytes) {p : Port}
    → parse_port_spec s ≡ ok p
    → HasPorts p × IsProtocol p.protocol × (p.name ≡ []) × (p.url ≡ [])
unfolding parse_port_spec
parse_port_spec-HasPorts s h =
    let proto = (split_protocol s).0 in
    let (known, k) = guard-eq-ok _ _ _ h in
    let (ports, same, no_name, no_url) = parse_pair-ok proto (split_protocol s).1 k in
    (ports, rw same (known_protocol-IsProtocol proto known), no_name, no_url)

digit-Lacks : (sep : ℕ) (s : Bytes) → is_digit sep ≡ false → All IsDigit s → Lacks sep s
digit-Lacks sep [] e h = tt
digit-Lacks sep (c ∷ s) e (hc, hs) = (ground arith, digit-Lacks sep s e hs)

parse_port-itoa : (n : ℕ) → IsPort (pos n) → parse_port (itoa (pos n)) ≡ some (pos n)
unfolding parse_port
parse_port-itoa n h = rw (
  trim_space-digits (itoa (pos n)) (itoa-All n),
  parse_port,
  atoi-itoa n (omega arith),
  out_of_range-IsPort (pos n) h,
)

-- The forward as the user writes it, with or without the protocol.
abbrev pub write_pair : ℕ → ℕ → Bytes
write_pair h g = itoa (pos h) ++ (b':' ∷ itoa (pos g))

parse_pair-write :
    (proto : Bytes) (h g : ℕ)
    → IsPort (pos h)
    → IsPort (pos g)
    → parse_pair proto (write_pair h g)
      ≡ ok (record { name = []; protocol = proto; host = pos h; guest = pos g; url = [] })
unfolding parse_pair
parse_pair-write proto h g ph pg =
    rw
      (
        cut-append (itoa (pos h)) (itoa (pos g)) b':' (digit-Lacks b':' _ refl (itoa-All h)),
        parse_pair,
      )
      (rw (parse_port-itoa h ph, parse_port-itoa g pg) refl)

protocol-lower : (proto : Bytes) → IsProtocol proto → (to_lower proto ≡ proto) × Lacks b'/' proto
unfolding to_lower
protocol-lower proto (inl e) = rw e (refl, omega arith)
protocol-lower proto (inr e) = rw e (refl, omega arith)

protocol-known : (proto : Bytes) → IsProtocol proto → known_protocol proto ≡ true
unfolding ◌≟◌
protocol-known proto (inl e) = rw e refl
protocol-known proto (inr e) = rw e refl

drop-suc : (s t : Bytes) (c : ℕ) → drop (suc (length s)) (s ++ (c ∷ t)) ≡ t
drop-suc [] t c = refl
drop-suc (x ∷ s) t c = drop-suc s t c

split_protocol-append :
    (s proto : Bytes) → IsProtocol proto → split_protocol (s ++ (b'/' ∷ proto)) ≡ (proto, s)
unfolding split_protocol
split_protocol-append s proto p =
    let (low, lacks) = protocol-lower proto p in
    rw (
      last_index-append s proto b'/' lacks,
      split_protocol,
      drop-suc s proto b'/',
      low,
      take-append s (b'/' ∷ proto),
    )

Lacks-write_pair : (h g : ℕ) → Lacks b'/' (write_pair h g)
Lacks-write_pair h g =
    All-append (λ c. c ≢ b'/') (itoa (pos h)) (b':' ∷ itoa (pos g))
      (digit-Lacks b'/' _ refl (itoa-All h)) (omega arith, digit-Lacks b'/' _ refl (itoa-All g))

-- What the user writes, `HOST:GUEST/proto`, is read as that forward.
pub parse_port_spec-write :
    (proto : Bytes) (h g : ℕ)
    → IsProtocol proto
    → IsPort (pos h)
    → IsPort (pos g)
    → parse_port_spec (write_pair h g ++ (b'/' ∷ proto))
      ≡ ok (record { name = []; protocol = proto; host = pos h; guest = pos g; url = [] })
unfolding parse_port_spec
parse_port_spec-write proto h g p ph pg =
    rw (split_protocol-append (write_pair h g) proto p, parse_parts, protocol-known proto p)
      (parse_pair-write proto h g ph pg)

-- Without a protocol, `HOST:GUEST` is read as a tcp forward.
pub parse_port_spec-write_tcp :
    (h g : ℕ)
    → IsPort (pos h)
    → IsPort (pos g)
    → parse_port_spec (write_pair h g)
      ≡ ok (record { name = []; protocol = codes "tcp"; host = pos h; guest = pos g; url = [] })
unfolding parse_port_spec split_protocol ◌≟◌
parse_port_spec-write_tcp h g ph pg =
    rw (last_index-none (write_pair h g) b'/' (Lacks-write_pair h g), split_protocol, parse_parts)
      (parse_pair-write (codes "tcp") h g ph pg)
