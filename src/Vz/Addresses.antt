-- ===== src/Vz/Addresses.antt =====
-- internal/vz/forward_darwin.go: the guest's address, from the table of leases or from ARP.
use dvm.Base.{
  ℕ, ◌+◌, ◌*◌, ◌-◌, Bytes, codes, ◌≟◌, is_empty, has_prefix, has_suffix, trim_prefix, trim_space,
  split, cut, fields, ltb, leb, ◌==◌,
}
use dvm.Base.{Bool, true, false, not, ◌&&◌, Option, none, some, List, [], ◌∷◌, if◌then◌else◌}
use mathlib.Core.List.{reverse}

unfoldable pub hex_value : ℕ → Option ℕ
hex_value c =
    if leb b'0' c && leb c b'9'
    then some (c - b'0')
    else if leb b'a' c && leb c b'f'
    then some (c - b'a' + 10)
    else if leb b'A' c && leb c b'F'
    then some (c - b'A' + 10)
    else none

unfoldable pub scan_hex : Bytes → ℕ → Option ℕ
scan_hex [] v = some v
scan_hex (c ∷ s) v = elim (hex_value c) [ none ↦ none | some n ↦ scan_hex s (v * 16 + n) ]

abbrev pub as_byte : Option ℕ → Option ℕ
as_byte none = none
as_byte (some v) = if ltb v 256 then some v else none

-- strconv.ParseUint with base 16 and 8 bits
unfoldable pub parse_hex_byte : Bytes → Option ℕ
parse_hex_byte s = if is_empty s then none else as_byte (scan_hex s 0)

abbrev pub is_byte : Option ℕ → ℕ → Bool
is_byte none b = false
is_byte (some v) b = v == b

-- Each part is the byte at its place, and there are as many.
unfoldable pub all_match : List Bytes → List ℕ → Bool
all_match [] [] = true
all_match [] (b ∷ bs) = false
all_match (p ∷ ps) [] = false
all_match (p ∷ ps) (b ∷ bs) = is_byte (parse_hex_byte p) b && all_match ps bs

-- The text behind the first comma, if there is one.
unfoldable pub after_comma : Bytes → Bytes
after_comma s = elim (cut s b',') [ none ↦ s | some (kind, rest) ↦ rest ]

-- `macEqual`
unfoldable pub mac_equal : Bytes → List ℕ → Bool
mac_equal field mac = all_match (split (after_comma field) b':') mac

-- The variables of the loop in `lookupLease`.
pub record Scan : Type 0 where
  pub ip : Bytes
  pub hw : Bytes
  pub match : Bytes

unfoldable pub lease_line : List ℕ → Scan → Bytes → Scan
lease_line mac s line =
    if line ≟ codes "{"
    then record s { ip = []; hw = [] }
    else if has_prefix line (codes "ip_address=")
    then record s { ip = trim_prefix line (codes "ip_address=") }
    else if has_prefix line (codes "hw_address=")
    then record s { hw = trim_prefix line (codes "hw_address=") }
    else if (line ≟ codes "}") && not (is_empty s.ip) && mac_equal s.hw mac
    then record s { match = s.ip }
    else s

unfoldable pub scan_leases : List ℕ → Scan → List Bytes → Scan
scan_leases mac s [] = s
scan_leases mac s (line ∷ lines) = scan_leases mac (lease_line mac s (trim_space line)) lines

-- `lookupLease` on the content of the leases file; the empty text stands for no lease.
unfoldable pub lookup_lease : List ℕ → Option Bytes → Bytes
lookup_lease mac none = []
lookup_lease mac (some text) =
    (scan_leases mac (record { ip = []; hw = []; match = [] }) (split text b'\n')).match

unfoldable pub drop_parens : Bytes → Bytes
drop_parens [] = []
drop_parens (c ∷ s) =
    let rest = drop_parens s in if c == b'(' then rest else if c == b')' then rest else c ∷ s

-- strings.Trim with the cutset "()"
unfoldable pub trim_parens : Bytes → Bytes
trim_parens s = reverse (drop_parens (reverse (drop_parens s)))

abbrev pub in_parens : Bytes → Bool
in_parens f = has_prefix f (codes "(") && has_suffix f (codes ")")

abbrev pub head_or : Bytes → List Bytes → Bytes
head_or old [] = old
head_or old (g ∷ more) = g

-- The address and the hardware address among the fields of a line; later ones win.
unfoldable pub arp_fields : List Bytes → Bytes → Bytes → Bytes × Bytes
arp_fields [] ip hw = (ip, hw)
arp_fields (f ∷ more) ip hw =
    arp_fields more (if in_parens f then trim_parens f else ip)
      (if f ≟ codes "at" then head_or hw more else hw)

unfoldable pub is_entry : List ℕ → Bytes × Bytes → Bool
is_entry mac (ip, hw) =
    not (is_empty ip) && not (is_empty hw) && not (hw ≟ codes "(incomplete)") && mac_equal hw mac

unfoldable pub arp_lines : List ℕ → List Bytes → Bytes
arp_lines mac [] = []
arp_lines mac (line ∷ lines) =
    let rest = arp_lines mac lines in
    let found = arp_fields (fields line) [] [] in if is_entry mac found then found.0 else rest

-- `lookupARP` on the output of `arp -an`
unfoldable pub lookup_arp : List ℕ → Option Bytes → Bytes
lookup_arp mac none = []
lookup_arp mac (some out) = arp_lines mac (split out b'\n')

-- What one round of `waitGuestIP` reads, and whether the deadline has passed or the context ended
-- behind it.
pub record Poll : Type 0 where
  pub arp : Option Bytes
  pub leases : Option Bytes
  pub over : Bool

-- `waitGuestIP` on the rounds to come, which the deadline bounds
unfoldable pub wait_guest_ip : List ℕ → List Poll → Option Bytes
wait_guest_ip mac [] = none
wait_guest_ip mac (p ∷ polls) =
    let rest = wait_guest_ip mac polls in
    if not (is_empty (lookup_arp mac p.arp))
    then some (lookup_arp mac p.arp)
    else if not (is_empty (lookup_lease mac p.leases))
    then some (lookup_lease mac p.leases)
    else if p.over
    then none
    else rest
