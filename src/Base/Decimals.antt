-- ===== src/Base/Decimals.antt =====
-- A number printed by Itoa is read back by Atoi, also with spaces trimmed.
use Prim.Native.Nat.{ℕ, zero, suc, ◌+◌, ◌/◌, ◌%◌, ◌^◌, ◌<◌}
use mathlib.Core.Logic.{inl, inr, ◌≢◌}
use mathlib.Core.Path.{◌≡◌, refl, sym, ◌∙◌}
use mathlib.Core.Bool.{true}
use mathlib.Core.Option.{some}
use mathlib.Core.List.{[], ◌∷◌, ◌++◌, reverse, append_assoc, append-nil, reverse-append}
use mathlib.Core.List.{reverse-reverse}
use native.Mathlib.Omega.{arith}
use dvm.Base.Cond.{ltb, Bool-cases}
use dvm.Base.Lists.{All, All-append}
use dvm.Base.Ints.{pos}
use dvm.Base.Strings.{Bytes, is_digit, scan, digits, digits_of, itoa, atoi}
use dvm.Base.Strings.{trim_left, trim_space}

abbrev pub IsDigit : ℕ → Type 0
IsDigit c = is_digit c ≡ true

scan-digits : (f n : ℕ) (rest : Bytes) → n < f → scan (digits f n ++ rest) 0 ≡ scan rest n
unfolding scan digits
scan-digits zero n rest h = elim h [ ]
scan-digits (suc f) n rest h = elim (Bool-cases (ltb n 10)) [
  | inl small ↦ rw small (ground arith)
  | inr large ↦
      rw
        (
          large,
          append_assoc,
          scan-digits f (n / 10) (((b'0' + n % 10) ∷ []) ++ rest) (ground arith),
        )
        (ground arith)
]

pub digits-All : (f n : ℕ) → All IsDigit (digits f n)
unfolding digits
digits-All zero n = tt
digits-All (suc f) n = elim (Bool-cases (ltb n 10)) [
  | inl small ↦ rw small (ground arith, tt)
  | inr large ↦
      rw large (All-append IsDigit (digits f (n / 10)) _ (digits-All f (n / 10)) (ground arith, tt))
]

pub All-reverse : (s : Bytes) → All IsDigit s → All IsDigit (reverse s)
All-reverse [] h = tt
All-reverse (c ∷ s) (hc, hs) =
    rw (reverse-append (c ∷ []) s)
      (All-append IsDigit (reverse s) (c ∷ []) (All-reverse s hs) (hc, tt))

pub trim_left-digits : (s : Bytes) → All IsDigit s → trim_left s ≡ s
unfolding trim_left
trim_left-digits [] h = refl
trim_left-digits (c ∷ s) (hc, hs) = ground arith

pub trim_space-digits : (s : Bytes) → All IsDigit s → trim_space s ≡ s
unfolding trim_space
trim_space-digits s h =
    rw (trim_left-digits s h, trim_left-digits (reverse s) (All-reverse s h)) (reverse-reverse s)

atoi-digits :
    (s : Bytes) (n : ℕ) → All IsDigit s → digits_of s ≡ some n → n < 2 ^ 63 → atoi s ≡ some (pos n)
unfolding atoi
atoi-digits [] n h e lt = cc
atoi-digits (c ∷ s) n (hc, hs) e lt = ground arith

digits_of-scan : (s : Bytes) → s ≢ [] → digits_of s ≡ scan s 0
unfolding digits_of
digits_of-scan [] h = absurd (h refl)
digits_of-scan (c ∷ s) h = refl

append-ne-nil : (s : Bytes) (c : ℕ) → s ++ (c ∷ []) ≢ []
append-ne-nil [] c e = cc
append-ne-nil (x ∷ s) c e = cc

digits-ne-nil : (f n : ℕ) → digits (suc f) n ≢ []
unfolding digits
digits-ne-nil f n = ground (arith, append-ne-nil (digits f (n / 10)) (b'0' + n % 10))

digits_of-digits : (n : ℕ) → digits_of (digits (suc n) n) ≡ some n
digits_of-digits n =
    digits_of-scan _ (digits-ne-nil n n)
    ∙ (sym (rw append-nil) ∙ (scan-digits (suc n) n [] (omega arith) ∙ unfold scan in refl))

-- `strconv.Atoi(strconv.Itoa(n))` is `n`.
pub atoi-itoa : (n : ℕ) → n < 2 ^ 63 → atoi (itoa (pos n)) ≡ some (pos n)
unfolding itoa
atoi-itoa n lt = atoi-digits (digits (suc n) n) n (digits-All (suc n) n) (digits_of-digits n) lt

pub itoa-All : (n : ℕ) → All IsDigit (itoa (pos n))
unfolding itoa
itoa-All n = digits-All (suc n) n

pub itoa-ne-nil : (n : ℕ) → itoa (pos n) ≢ []
unfolding itoa
itoa-ne-nil n = digits-ne-nil n n
