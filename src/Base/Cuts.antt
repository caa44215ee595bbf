-- ===== src/Base/Cuts.antt =====
-- Texts cut at a separator that one side does not hold.
use Prim.Native.Nat.{ℕ}
use mathlib.Core.Path.{◌≡◌, refl, ap, ◌∙◌}
use mathlib.Core.Logic.{◌≢◌}
use mathlib.Core.Option.{none, some}
use mathlib.Core.List.{List, [], ◌∷◌, ◌++◌}
use native.Mathlib.Omega.{arith}
use dvm.Base.Lists.{length, All}
use dvm.Base.Strings.{Bytes, cut, last_index, split, join}

abbrev pub Lacks : ℕ → Bytes → Type 0
Lacks sep = All (λ c. c ≢ sep)

pub cut-append : (a b : Bytes) (sep : ℕ) → Lacks sep a → cut (a ++ (sep ∷ b)) sep ≡ some (a, b)
unfolding cut
cut-append [] b sep h = ground arith
cut-append (c ∷ a) b sep (hc, ha) = rw (cut-append a b sep ha) (ground arith)

pub last_index-none : (s : Bytes) (sep : ℕ) → Lacks sep s → last_index s sep ≡ none
unfolding last_index
last_index-none [] sep h = refl
last_index-none (c ∷ s) sep (hc, hs) = rw (last_index-none s sep hs) (ground arith)

pub last_index-append :
    (a b : Bytes) (sep : ℕ) → Lacks sep b → last_index (a ++ (sep ∷ b)) sep ≡ some (length a)
unfolding last_index
last_index-append [] b sep h = rw (last_index-none b sep h) (ground arith)
last_index-append (c ∷ a) b sep h = rw (last_index-append a b sep h) refl

pub split-Lacks :
    (p rest : Bytes) (sep : ℕ) → Lacks sep p → split (p ++ (sep ∷ rest)) sep ≡ p ∷ split rest sep
unfolding split
split-Lacks [] rest sep h = ground arith
split-Lacks (c ∷ p) rest sep (hc, hp) = rw (split-Lacks p rest sep hp) (ground arith)

pub split-one : (p : Bytes) (sep : ℕ) → Lacks sep p → split p sep ≡ p ∷ []
unfolding split
split-one [] sep h = refl
split-one (c ∷ p) sep (hc, hp) = rw (split-one p sep hp) (ground arith)

-- A joined list is split into its parts again.
pub split-join :
    (p : Bytes) (ps : List Bytes) (sep : ℕ)
    → All (Lacks sep) (p ∷ ps)
    → split (join (p ∷ ps) (sep ∷ [])) sep ≡ p ∷ ps
unfolding join
split-join p [] sep (hp, h) = split-one p sep hp
split-join p (q ∷ ps) sep (hp, h) =
    split-Lacks p (join (q ∷ ps) (sep ∷ [])) sep hp ∙ ap (λ l. p ∷ l) (split-join q ps sep h)
