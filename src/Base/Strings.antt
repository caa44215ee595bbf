-- ===== src/Base/Strings.antt =====
-- Go strings as lists of bytes, and what the program uses of the packages strings and strconv.
-- White space and letter case are those of ASCII.
use Prim.Native.Nat.{ℕ, zero, suc, ◌+◌, ◌-◌, ◌*◌, ◌/◌, ◌%◌, ◌^◌}
use Prim.Native.Char.{code}
use Prim.Native.String.{String}
use mathlib.Core.Path.{◌≡◌, refl}
use mathlib.Core.Logic.{◌↔◌}
use mathlib.Core.Bool.{Bool, true, false, ◌&&◌, ◌||◌}
use mathlib.Core.Option.{Option, none, some}
use mathlib.Core.List.{List, [], ◌∷◌, ◌++◌, map, reverse}
use native.Mathlib.Omega.{arith}
use dvm.Base.Cond.{ltb, leb, ◌==◌, if◌then◌else◌}
use dvm.Base.Lists.{length, drop, drop-append}
use dvm.Base.Ints.{ℤ, pos, negsuc}

abbrev pub Bytes : Type 0
Bytes = List ℕ

-- The bytes of an ASCII literal.
abbrev pub codes : String → Bytes
codes String.[] = []
codes (String.◌∷◌ c s) = code c ∷ codes s

-- `s == t`
infix 50 ◌≟◌
unfoldable pub ◌≟◌ : Bytes → Bytes → Bool
[] ≟ [] = true
[] ≟ (d ∷ t) = false
(c ∷ s) ≟ [] = false
(c ∷ s) ≟ (d ∷ t) = (c == d) && (s ≟ t)

pub ≟_refl : (s : Bytes) → (s ≟ s) ≡ true
unfolding ◌≟◌
≟_refl [] = refl
≟_refl (c ∷ s) = ground (arith, ≟_refl s)

≟→≡ : (s t : Bytes) → (s ≟ t) ≡ true → s ≡ t
unfolding ◌≟◌
≟→≡ [] [] h = refl
≟→≡ [] (d ∷ t) h = cc
≟→≡ (c ∷ s) [] h = cc
≟→≡ (c ∷ s) (d ∷ t) h = ground (arith, ≟→≡ s t)

pub ≟_iff : (s t : Bytes) → ((s ≟ t) ≡ true) ↔ (s ≡ t)
≟_iff s t = (≟→≡ s t, λ e. rw e (≟_refl t))

-- `s == ""`
abbrev pub is_empty : Bytes → Bool
is_empty [] = true
is_empty (c ∷ s) = false

-- strings.HasPrefix
unfoldable pub has_prefix : Bytes → Bytes → Bool
has_prefix s [] = true
has_prefix [] (p ∷ ps) = false
has_prefix (c ∷ s) (p ∷ ps) = (c == p) && has_prefix s ps

-- strings.TrimPrefix
unfoldable pub trim_prefix : Bytes → Bytes → Bytes
unfolding has_prefix
trim_prefix s p = if has_prefix s p then drop (length p) s else s

-- strings.HasSuffix
unfoldable pub has_suffix : Bytes → Bytes → Bool
unfolding has_prefix
has_suffix s p = has_prefix (reverse s) (reverse p)

-- strings.Contains
unfoldable pub contains : Bytes → Bytes → Bool
unfolding has_prefix
contains [] sub = has_prefix [] sub
contains (c ∷ s) sub = has_prefix (c ∷ s) sub || contains s sub

-- strings.LastIndex for a separator of one byte
unfoldable pub last_index : Bytes → ℕ → Option ℕ
last_index [] c = none
last_index (x ∷ s) c = elim (last_index s c) [
  | some i ↦ some (suc i)
  | none ↦ if x == c then some 0 else none
]

-- strings.Cut for a separator of one byte
unfoldable pub cut : Bytes → ℕ → Option (Bytes × Bytes)
cut [] c = none
cut (x ∷ s) c =
    let rest = cut s c in
    if x == c
    then some ([], s)
    else elim rest [ none ↦ none | some (before, after) ↦ some (x ∷ before, after) ]

-- The last part grows at its front while the text is read from its end.
abbrev pub cons_head : ℕ → List Bytes → List Bytes
cons_head c [] = (c ∷ []) ∷ []
cons_head c (p ∷ ps) = (c ∷ p) ∷ ps

-- strings.Split for a separator of one byte
unfoldable pub split : Bytes → ℕ → List Bytes
split [] sep = [] ∷ []
split (c ∷ s) sep = let rest = split s sep in if c == sep then [] ∷ rest else cons_head c rest

-- strings.Join
unfoldable pub join : List Bytes → Bytes → Bytes
join [] sep = []
join (p ∷ []) sep = p
join (p ∷ q ∷ ps) sep = p ++ (sep ++ join (q ∷ ps) sep)

abbrev pub is_space : ℕ → Bool
is_space c = (leb 9 c && leb c 13) || (c == 32)

unfoldable pub flush : Bytes → List Bytes → List Bytes
flush [] ws = ws
flush (c ∷ s) ws = (c ∷ s) ∷ ws

-- The word read so far is the last argument.
unfoldable pub words : Bytes → Bytes → List Bytes
unfolding flush
words [] cur = flush cur []
words (c ∷ s) cur = elim (is_space c) [
  | true ↦ flush cur (words s [])
  | false ↦ words s (cur ++ (c ∷ []))
]

-- strings.Fields
unfoldable pub fields : Bytes → List Bytes
unfolding words
fields s = words s []

unfoldable pub trim_left : Bytes → Bytes
trim_left [] = []
trim_left (c ∷ s) = let rest = trim_left s in if is_space c then rest else c ∷ s

-- strings.TrimSpace
unfoldable pub trim_space : Bytes → Bytes
unfolding trim_left
trim_space s = reverse (trim_left (reverse (trim_left s)))

abbrev pub lower_byte : ℕ → ℕ
lower_byte c = if leb b'A' c && leb c b'Z' then c + 32 else c

-- strings.ToLower
unfoldable pub to_lower : Bytes → Bytes
to_lower = map lower_byte

abbrev pub is_digit : ℕ → Bool
is_digit c = leb b'0' c && leb c b'9'

-- Decimal digits read behind the number `n`.
unfoldable pub scan : Bytes → ℕ → Option ℕ
scan [] n = some n
scan (c ∷ s) n = let rest = scan s (n * 10 + (c - b'0')) in if is_digit c then rest else none

unfoldable pub digits_of : Bytes → Option ℕ
unfolding scan
digits_of [] = none
digits_of (c ∷ s) = scan (c ∷ s) 0

abbrev pub positive : Option ℕ → Option ℤ
positive none = none
positive (some n) = if ltb n (2 ^ 63) then some (pos n) else none

abbrev pub negative : Option ℕ → Option ℤ
negative none = none
negative (some zero) = some (pos 0)
negative (some (suc n)) = if ltb n (2 ^ 63) then some (negsuc n) else none

-- strconv.Atoi; `none` is its error, which a value outside int64 is too.
unfoldable pub atoi : Bytes → Option ℤ
unfolding digits_of
atoi [] = none
atoi (c ∷ s) =
    if c == b'-'
    then negative (digits_of s)
    else if c == b'+'
    then positive (digits_of s)
    else positive (digits_of (c ∷ s))

-- The decimal digits of `n`; fuel `suc n` is enough.
unfoldable pub digits : ℕ → ℕ → Bytes
digits zero n = []
digits (suc f) n =
    let more = digits f (n / 10) ++ ((b'0' + n % 10) ∷ []) in
    if ltb n 10 then (b'0' + n) ∷ [] else more

-- strconv.Itoa, and the verb %d
unfoldable pub itoa : ℤ → Bytes
unfolding digits
itoa (pos n) = digits (suc n) n
itoa (negsuc n) = b'-' ∷ digits (suc (suc n)) (suc n)

pub has_prefix-append : (p s : Bytes) → has_prefix (p ++ s) p ≡ true
unfolding has_prefix
has_prefix-append [] s = refl
has_prefix-append (c ∷ p) s = ground (arith, has_prefix-append p s)

-- What HasPrefix means.
pub append-drop_of_has_prefix : (s p : Bytes) → has_prefix s p ≡ true → p ++ drop (length p) s ≡ s
unfolding has_prefix
append-drop_of_has_prefix s [] h = refl
append-drop_of_has_prefix [] (p ∷ ps) h = cc
append-drop_of_has_prefix (c ∷ s) (p ∷ ps) h = ground (arith, append-drop_of_has_prefix s ps)

pub trim_prefix-append : (p s : Bytes) → trim_prefix (p ++ s) p ≡ s
unfolding trim_prefix
trim_prefix-append p s = rw (has_prefix-append p s) (drop-append p s)

itoa_test : itoa (pos 8080) ≡ codes "8080"
unfolding itoa
itoa_test = refl

atoi_test :
    (atoi (codes "-12") ≡ some (negsuc 11))
    × (atoi (codes "8080") ≡ some (pos 8080))
    × (atoi (codes "9223372036854775808") ≡ none)
    × (atoi (codes "") ≡ none)
unfolding atoi
atoi_test = (refl, refl, refl, refl)

fields_test : fields (codes " ab  c ") ≡ codes "ab" ∷ codes "c" ∷ []
unfolding fields
fields_test = refl

split_test : split (codes "a,,b") b',' ≡ codes "a" ∷ [] ∷ codes "b" ∷ []
unfolding split
split_test = refl

trim_space_test : trim_space (codes " 80 ") ≡ codes "80"
unfolding trim_space
trim_space_test = refl
