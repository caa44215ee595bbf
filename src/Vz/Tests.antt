-- ===== src/Vz/Tests.antt =====
-- Tests of internal/vz.
use dvm.Base.{All, ◌⊎◌, ◌<◌, Bytes, ℕ, false, some, [], split, arith}
use dvm.Vz.Addresses.{is_entry, lookup_arp}
use dvm.Base.{inl, inr, ◌↔◌}
use dvm.Vz.Supervise.{state_other, interrupted, state_error, deadline, forced, wait_for_end}
use dvm.Vz.Ending.{IsEnd, wait_for_end_iff}
use dvm.Base.{codes, split, cut, ℕ, List, [], ◌∷◌, ◌≡◌, refl, true, false}
use dvm.Vz.Addresses
use dvm.Vz.Addresses.{mac_equal, lookup_arp}

abbrev mac : List ℕ
mac = 86 ∷ 38 ∷ 194 ∷ 76 ∷ 184 ∷ 9 ∷ []

macs :
    (mac_equal (codes "1,56:26:c2:4c:b8:9") mac ≡ true)
    × (mac_equal (codes "56:26:c2:4c:b8:a") mac ≡ false)
unfolding mac_equal Addresses.all_match Addresses.after_comma split cut Addresses.parse_hex_byte
    Addresses.scan_hex Addresses.hex_value
macs = (refl, refl)

-- An interrupt, changes of state, and the deadline.
wait_for_end_iff_example :
    (wait_for_end (state_other ∷ interrupted ∷ state_error ∷ deadline ∷ []) ≡ some forced)
    ↔ IsEnd (state_other ∷ interrupted ∷ state_error ∷ deadline ∷ []) forced
wait_for_end_iff_example =
    wait_for_end_iff (state_other ∷ interrupted ∷ state_error ∷ deadline ∷ []) forced

abbrev table : Bytes
table =
    codes
      "? (10.0.0.2) at (incomplete) on en0\n? (192.168.64.21) at 56:26:c2:4c:b8:9 on bridge100\n"

looked_up : lookup_arp mac (some table) ≡ codes "192.168.64.21"
unfolding lookup_arp Addresses.arp_lines split is_entry Addresses.arp_fields dvm.Base.fields
    dvm.Base.has_prefix dvm.Base.has_suffix Addresses.trim_parens Addresses.drop_parens dvm.Base.◌≟◌
    mac_equal Addresses.all_match Addresses.after_comma cut Addresses.parse_hex_byte
    Addresses.scan_hex Addresses.hex_value
looked_up = refl
