-- ===== src/Vz/Random.antt =====
-- The hardware address that the machine gets.
use Prim.Native.Nat.{bit_and, bit_or}
use dvm.Base.{ℕ, zero, suc, ◌<◌, ◌==◌, ltb, Bool, true, false, ◌&&◌, List, ◌∷◌}
use dvm.Base.{◌≡◌, refl, Bool-cases, inl, inr, arith}
use dvm.Vz.Overlay.{random_mac}

-- Bit 1 is set and bit 0 is not, in a byte.
unfoldable is_local : ℕ → Bool
is_local x = (bit_and x 2 == 2) && ((bit_and x 1 == 0) && ltb x 256)

-- The first byte that the random one becomes
abbrev local : ℕ → ℕ
local b = bit_and (bit_or b 2) 254

unfoldable all_below : ℕ → Bool
all_below zero = true
all_below (suc n) = is_local (local n) && all_below n

both_true : (a b : Bool) → (a && b) ≡ true → (a ≡ true) × (b ≡ true)
both_true true b e = (refl, e)
both_true false b e = cc

all_below-is_local : (n b : ℕ) → all_below n ≡ true → b < n → is_local (local b) ≡ true
unfolding all_below
all_below-is_local zero b e h = absurd (omega arith)
all_below-is_local (suc n) b e h =
    let (here, below) = both_true (is_local (local n)) (all_below n) e in
    elim (Bool-cases (b == n)) [
      | inl same ↦ let eq : b ≡ n = ground arith in rw eq here
      | inr other ↦ all_below-is_local n b below (ground arith)
    ]

all_bytes : all_below 256 ≡ true
unfolding all_below is_local
all_bytes = refl

is_local-bits : (x : ℕ) → is_local x ≡ true → (bit_and x 2 ≡ 2) × (bit_and x 1 ≡ 0) × (x < 256)
unfolding is_local
is_local-bits x e =
    let (two, more) = both_true (bit_and x 2 == 2) _ e in
    let (one, small) = both_true (bit_and x 1 == 0) _ more in
    (ground arith, ground arith, ground arith)

-- Whatever the random bytes are, the address is locally administered and for one station, its first
-- byte is a byte, and the other bytes are the random ones.
pub random_mac_lem :
    (b : ℕ) (bs : List ℕ)
    → b < 256
    → (x : ℕ) × (random_mac (b ∷ bs) ≡ x ∷ bs) × (bit_and x 2 ≡ 2) × (bit_and x 1 ≡ 0) × (x < 256)
unfolding random_mac
random_mac_lem b bs h =
    let (two, one, small) = is_local-bits (local b) (all_below-is_local 256 b all_bytes h) in
    (local b, refl, two, one, small)
