-- ===== src/Cli/Numbers.antt =====
-- What the flag parser of Go's package flag reads as a Boolean and as a number: strconv.ParseBool,
-- and strconv.ParseInt with base 0.
use dvm.Base.{
  ℕ, ◌+◌, ◌-◌, ◌*◌, ℤ, pos, negsuc, ltb, leb, ◌==◌, Bytes, codes, ◌≟◌, lower_byte, is_digit,
  positive, negative, Bool, true, false, not, ◌&&◌, ◌||◌, Option, none, some, List, [], ◌∷◌,
  if◌then◌else◌, ◌≡◌, refl,
}

unfoldable pub one_of : List Bytes → Bytes → Bool
one_of [] s = false
one_of (t ∷ ts) s = (s ≟ t) || one_of ts s

abbrev true_words : List Bytes
true_words = codes "1" ∷ codes "t" ∷ codes "T" ∷ codes "TRUE" ∷ codes "true" ∷ codes "True" ∷ []

abbrev false_words : List Bytes
false_words = codes "0" ∷ codes "f" ∷ codes "F" ∷ codes "FALSE" ∷ codes "false" ∷ codes "False" ∷ []

-- strconv.ParseBool
unfoldable pub parse_bool : Bytes → Option Bool
unfolding one_of
parse_bool s =
    if one_of true_words s then some true else if one_of false_words s then some false else none

-- The value of a digit; 36 where there is none.
abbrev digit_value : ℕ → ℕ
digit_value c =
    if is_digit c
    then c - b'0'
    else if leb b'a' (lower_byte c) && leb (lower_byte c) b'z'
    then lower_byte c - b'a' + 10
    else 36

-- The digits behind the number `n`; underscores are passed over.
unfoldable pub scan_base : ℕ → Bytes → ℕ → Option ℕ
scan_base base [] n = some n
scan_base base (c ∷ s) n =
    let rest = scan_base base s (if c == b'_' then n else n * base + digit_value c) in
    if (c == b'_') || ltb (digit_value c) base then rest else none

-- The base that the prefix of a text says, and the digits
abbrev base_and_digits : Bytes → ℕ × Bytes
base_and_digits [] = (10, [])
base_and_digits (z ∷ []) = if z == b'0' then (8, []) else (10, z ∷ [])
base_and_digits (z ∷ p ∷ []) = if z == b'0' then (8, p ∷ []) else (10, z ∷ p ∷ [])
base_and_digits (z ∷ p ∷ c ∷ s) =
    if not (z == b'0')
    then (10, z ∷ p ∷ c ∷ s)
    else if lower_byte p == b'b'
    then (2, c ∷ s)
    else if lower_byte p == b'o'
    then (8, c ∷ s)
    else if lower_byte p == b'x'
    then (16, c ∷ s)
    else (8, p ∷ c ∷ s)

-- Each underscore stands between two digits; the flags say whether the character before was a digit
-- and whether it was an underscore.
unfoldable pub underscores_ok : Bool → Bool → Bytes → Bool
underscores_ok digit mark [] = not mark
underscores_ok digit mark (c ∷ s) =
    let rest = underscores_ok (not (c == b'_')) (c == b'_') s in
    if (c == b'_') && not digit then false else rest

-- A prefix counts as a digit.
abbrev marks_ok : Bytes → Bool
marks_ok (z ∷ p ∷ s) =
    if (z == b'0') && ((lower_byte p == b'b') || (lower_byte p == b'o') || (lower_byte p == b'x'))
    then underscores_ok true false s
    else underscores_ok false false (z ∷ p ∷ s)
marks_ok s = underscores_ok false false s

-- strconv.ParseUint with base 0, with no bound
unfoldable pub parse_digits : Bytes → Option ℕ
unfolding scan_base underscores_ok
parse_digits [] = none
parse_digits (c ∷ s) =
    let (base, ds) = base_and_digits (c ∷ s) in
    if marks_ok (c ∷ s) then scan_base base ds 0 else none

-- strconv.ParseInt with base 0 and 64 bits
unfoldable pub parse_int : Bytes → Option ℤ
unfolding parse_digits
parse_int [] = none
parse_int (c ∷ s) =
    if c == b'-'
    then negative (parse_digits s)
    else if c == b'+'
    then positive (parse_digits s)
    else positive (parse_digits (c ∷ s))

numbers :
    (parse_int (codes "4096") ≡ some (pos 4096))
    × (parse_int (codes "0x10") ≡ some (pos 16))
    × (parse_int (codes "-1_000") ≡ some (negsuc 999))
    × (parse_int (codes "010") ≡ some (pos 8))
    × (parse_int (codes "0") ≡ some (pos 0))
    × (parse_int (codes "1__0") ≡ none)
    × (parse_int (codes "4G") ≡ none)
    × (parse_int (codes "9223372036854775808") ≡ none)
unfolding parse_int
numbers = (refl, refl, refl, refl, refl, refl, refl, refl)
