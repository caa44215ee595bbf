-- ===== src/Vz/Leases.antt =====
-- What the scan of the leases file finds, block by block.
use dvm.Base.{
  ℕ, Bytes, codes, ◌≟◌, is_empty, has_prefix, has_prefix-append, trim_prefix-append, trim_space,
  split, All, false, not, ◌&&◌, Bool-cases, inl, inr, some, List, [], ◌∷◌, ◌++◌, map, if◌then◌else◌,
}
use dvm.Base.{◌≡◌, refl, ap, ◌∙◌}
use dvm.Vz.Addresses.{mac_equal, Scan, lease_line, scan_leases, lookup_lease}

-- A line of a lease
pub data Field : Type 0 where
  ip_field : Bytes → Field
  hw_field : Bytes → Field
  other : Bytes → Field

abbrev pub line_of : Field → Bytes
line_of (ip_field ip) = codes "ip_address=" ++ ip
line_of (hw_field hw) = codes "hw_address=" ++ hw
line_of (other line) = line

-- A line with no meaning to the scan
abbrev pub IsIgnored : Bytes → Type 0
IsIgnored l =
    ((l ≟ codes "{") ≡ false)
    × (has_prefix l (codes "ip_address=") ≡ false)
    × (has_prefix l (codes "hw_address=") ≡ false)
    × ((l ≟ codes "}") ≡ false)

abbrev pub IsField : Field → Type 0
IsField (other line) = IsIgnored line
IsField f = Unit

-- The lines of a lease, and of several ones with more lines behind them
abbrev pub block : List Field → List Bytes
block fs = codes "{" ∷ (map line_of fs ++ (codes "}" ∷ []))

abbrev pub blocks : List (List Field) → List Bytes → List Bytes
blocks [] rest = rest
blocks (b ∷ bs) rest = block b ++ blocks bs rest

-- The address and the hardware address of a lease: those of its last line that has one
abbrev pub addresses : List Field → Bytes × Bytes → Bytes × Bytes
addresses [] x = x
addresses (ip_field ip ∷ fs) (old, hw) = addresses fs (ip, hw)
addresses (hw_field hw ∷ fs) (ip, old) = addresses fs (ip, hw)
addresses (other line ∷ fs) x = addresses fs x

-- The address of the last lease for the machine, or the one given if there is none
abbrev pub last_lease : List ℕ → List (List Field) → Bytes → Bytes
last_lease mac [] found = found
last_lease mac (b ∷ bs) found =
    let (ip, hw) = addresses b ([], []) in
    last_lease mac bs (if not (is_empty ip) && mac_equal hw mac then ip else found)

-- The scan on lines that are trimmed
unfoldable pub run_lines : List ℕ → Scan → List Bytes → Scan
run_lines mac s [] = s
run_lines mac s (l ∷ ls) = run_lines mac (lease_line mac s l) ls

scan_leases-run_lines :
    (mac : List ℕ) (s : Scan) (ls : List Bytes)
    → scan_leases mac s ls ≡ run_lines mac s (map trim_space ls)
unfolding scan_leases run_lines
scan_leases-run_lines mac s [] = refl
scan_leases-run_lines mac s (l ∷ ls) =
    scan_leases-run_lines mac (lease_line mac s (trim_space l)) ls

run_lines-append :
    (mac : List ℕ) (s : Scan) (ls more : List Bytes)
    → run_lines mac s (ls ++ more) ≡ run_lines mac (run_lines mac s ls) more
unfolding run_lines
run_lines-append mac s [] more = refl
run_lines-append mac s (l ∷ ls) more = run_lines-append mac (lease_line mac s l) ls more

abbrev scan_of : Bytes × Bytes → Bytes → Scan
scan_of (ip, hw) found = record { ip = ip; hw = hw; match = found }

no_ip_line : (x : Bytes) → has_prefix (codes "hw_address=" ++ x) (codes "ip_address=") ≡ false
unfolding has_prefix
no_ip_line x = refl

module _ (mac : List ℕ) where
  ip_line :
      (ip hw found x : Bytes)
      → lease_line mac (scan_of (ip, hw) found) (codes "ip_address=" ++ x) ≡ scan_of (x, hw) found
  unfolding lease_line ◌≟◌
  ip_line ip hw found x =
      rw (has_prefix-append (codes "ip_address=") x, trim_prefix-append (codes "ip_address=") x)
        refl

  hw_line :
      (ip hw found x : Bytes)
      → lease_line mac (scan_of (ip, hw) found) (codes "hw_address=" ++ x) ≡ scan_of (ip, x) found
  unfolding lease_line ◌≟◌
  hw_line ip hw found x =
      rw
        (
          no_ip_line x,
          has_prefix-append (codes "hw_address=") x,
          trim_prefix-append (codes "hw_address=") x,
        )
        refl

  ignored_line : (s : Scan) (l : Bytes) → IsIgnored l → lease_line mac s l ≡ s
  unfolding lease_line
  ignored_line s l (a, b, c, d) = rw (a, b, c, d) refl

  run_fields :
      (fs : List Field) (ip hw found : Bytes)
      → All IsField fs
      → run_lines mac (scan_of (ip, hw) found) (map line_of fs)
        ≡ scan_of (addresses fs (ip, hw)) found
  unfolding run_lines
  run_fields [] ip hw found h = refl
  run_fields (ip_field x ∷ fs) ip hw found (h, hs) =
      ap (λ s. run_lines mac s (map line_of fs)) (ip_line ip hw found x)
      ∙ run_fields fs x hw found hs
  run_fields (hw_field x ∷ fs) ip hw found (h, hs) =
      ap (λ s. run_lines mac s (map line_of fs)) (hw_line ip hw found x)
      ∙ run_fields fs ip x found hs
  run_fields (other l ∷ fs) ip hw found (h, hs) =
      ap (λ s. run_lines mac s (map line_of fs)) (ignored_line (scan_of (ip, hw) found) l h)
      ∙ run_fields fs ip hw found hs

  abbrev choice : Bytes × Bytes → Bytes → Bytes
  choice (ip, hw) found = if not (is_empty ip) && mac_equal hw mac then ip else found

  last_line :
      (x : Bytes × Bytes) (found : Bytes)
      → lease_line mac (scan_of x found) (codes "}") ≡ scan_of x (choice x found)
  unfolding lease_line ◌≟◌ has_prefix
  last_line (ip, hw) found = elim (Bool-cases (not (is_empty ip) && mac_equal hw mac)) [
    | inl y ↦ rw y refl
    | inr n ↦ rw n refl
  ]

  first_line : (s : Scan) → lease_line mac s (codes "{") ≡ scan_of ([], []) s.match
  unfolding lease_line ◌≟◌
  first_line s = refl

  run_block :
      (b : List Field) (s : Scan)
      → All IsField b
      → run_lines mac s (block b)
        ≡ scan_of (addresses b ([], [])) (choice (addresses b ([], [])) s.match)
  unfolding run_lines
  run_block b s h =
      ap (λ t. run_lines mac t (map line_of b ++ (codes "}" ∷ []))) (first_line s)
      ∙ (run_lines-append mac (scan_of ([], []) s.match) (map line_of b) (codes "}" ∷ [])
          ∙ (ap (λ t. lease_line mac t (codes "}")) (run_fields b [] [] s.match h)
              ∙ last_line (addresses b ([], [])) s.match))

  run_ignored : (s : Scan) (rest : List Bytes) → All IsIgnored rest → run_lines mac s rest ≡ s
  unfolding run_lines
  run_ignored s [] h = refl
  run_ignored s (l ∷ rest) (hl, h) =
      ap (λ t. run_lines mac t rest) (ignored_line s l hl) ∙ run_ignored s rest h

  run_blocks :
      (bs : List (List Field)) (rest : List Bytes) (s : Scan)
      → All (All IsField) bs
      → All IsIgnored rest
      → (run_lines mac s (blocks bs rest)).match ≡ last_lease mac bs s.match
  run_blocks [] rest s h hr = ap (λ t. t.match) (run_ignored s rest hr)
  run_blocks (b ∷ bs) rest s (hb, h) hr =
      ap (λ t. t.match) (run_lines-append mac s (block b) (blocks bs rest))
      ∙ (ap (λ t. (run_lines mac t (blocks bs rest)).match) (run_block b s hb)
          ∙ run_blocks bs rest _ h hr)

  -- Where the lines of the leases file, trimmed, are leases in braces and, behind them, lines with
  -- no meaning, the lookup finds the address of the last lease that has one and has the hardware
  -- address of the machine, in whatever order the fields of a lease stand and whatever else it has,
  -- and nothing if there is none.
  pub lookup_lease-last_lease :
      (text : Bytes) (bs : List (List Field)) (rest : List Bytes)
      → map trim_space (split text b'\n') ≡ blocks bs rest
      → All (All IsField) bs
      → All IsIgnored rest
      → lookup_lease mac (some text) ≡ last_lease mac bs []
  unfolding lookup_lease
  lookup_lease-last_lease text bs rest e h hr =
      let start = scan_of ([], []) [] in
      ap (λ t. t.match) (scan_leases-run_lines mac start (split text b'\n'))
      ∙ (ap (λ ls. (run_lines mac start ls).match) e ∙ run_blocks bs rest start h hr)
