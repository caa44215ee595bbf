-- ===== src/Vz/Lookups.antt =====
-- Which address a lookup yields, and for which hardware address.
use dvm.Base.{
  ℕ, Bytes, split, fields, Bool, true, false, ◌&&◌, Option, none, some, List, [], ◌∷◌, ◌++◌, All,
}
use dvm.Base.{◌≡◌, ◌⊎◌, inl, inr, refl, ap, ◌∙◌, Bool-cases, arith}
use dvm.Vz.Addresses.{
  parse_hex_byte, is_byte, all_match, after_comma, mac_equal, arp_fields, is_entry, arp_lines,
  lookup_arp,
}

both_true : (a b : Bool) → (a && b) ≡ true → (a ≡ true) × (b ≡ true)
both_true true b e = (refl, e)
both_true false b e = cc

is_byte_unique : (o : Option ℕ) (b c : ℕ) → is_byte o b ≡ true → is_byte o c ≡ true → b ≡ c
is_byte_unique none b c h h' = absurd (cc h)
is_byte_unique (some v) b c h h' = ground arith

all_match_unique :
    (ps : List Bytes) (m m' : List ℕ) → all_match ps m ≡ true → all_match ps m' ≡ true → m ≡ m'
unfolding all_match
all_match_unique [] [] [] h h' = refl
all_match_unique [] [] (c ∷ m') h h' = absurd (cc h')
all_match_unique [] (b ∷ m) m' h h' = absurd (cc h)
all_match_unique (p ∷ ps) [] m' h h' = absurd (cc h)
all_match_unique (p ∷ ps) (b ∷ m) [] h h' = absurd (cc h')
all_match_unique (p ∷ ps) (b ∷ m) (c ∷ m') h h' =
    let (hb, hm) = both_true _ _ h in
    let (hc, hn) = both_true _ _ h' in
    let e : b ≡ c = is_byte_unique (parse_hex_byte p) b c hb hc in
    ap (λ x. x ∷ m) e ∙ ap (λ l. c ∷ l) (all_match_unique ps m m' hm hn)

-- A field of a table, with or without leading zeros, in either case and with or without a kind
-- before it, is the hardware address of one machine at most.
pub mac_equal_unique :
    (field : Bytes) (m m' : List ℕ) → mac_equal field m ≡ true → mac_equal field m' ≡ true → m ≡ m'
unfolding mac_equal
mac_equal_unique field m m' h h' = all_match_unique (split (after_comma field) b':') m m' h h'

-- The address and the hardware address that a line of the table shows
abbrev pub entry_of : Bytes → Bytes × Bytes
entry_of line = arp_fields (fields line) [] []

-- The first line that is an entry for the machine
abbrev pub IsFirst : List ℕ → List Bytes → Bytes → Type 0
IsFirst mac lines ip =
    (before : List Bytes) × (line : Bytes) × (after : List Bytes) × (lines
      ≡ before ++ (line ∷ after))
    × All (λ l. is_entry mac (entry_of l) ≡ false) before
    × (is_entry mac (entry_of line) ≡ true)
    × (ip ≡ (entry_of line).0)

arp_lines-IsFirst :
    (mac : List ℕ) (lines : List Bytes)
    → All (λ l. is_entry mac (entry_of l) ≡ false) lines × (arp_lines mac lines ≡ [])
      ⊎ IsFirst mac lines (arp_lines mac lines)
unfolding arp_lines
arp_lines-IsFirst mac [] = inl (tt, refl)
arp_lines-IsFirst mac (line ∷ lines) = elim (Bool-cases (is_entry mac (entry_of line))) [
  | inl y ↦ inr ([], line, lines, refl, tt, y, rw (arp_lines, y) refl)
  | inr n ↦ elim (arp_lines-IsFirst mac lines) [
    | inl (all, e) ↦ inl ((n, all), rw (arp_lines, n) e)
    | inr (before, l, after, e, all, y, ip) ↦
        inr (line ∷ before, l, after, ap (λ x. line ∷ x) e, (n, all), y, rw (arp_lines, n) ip)
  ]
]

-- The lookup in the ARP table yields the address of the first line that has one, a hardware address
-- that is complete and the machine's; and the empty text where no line is one.
pub lookup_arp-IsFirst :
    (mac : List ℕ) (out : Bytes)
    → All (λ l. is_entry mac (entry_of l) ≡ false) (split out b'\n')
        × (lookup_arp mac (some out) ≡ [])
      ⊎ IsFirst mac (split out b'\n') (lookup_arp mac (some out))
unfolding lookup_arp
lookup_arp-IsFirst mac out = arp_lines-IsFirst mac (split out b'\n')
