-- ===== src/Base/PathShape.antt =====
-- The parts of a cleaned path: names only, or a path that leaves its directory.
use Prim.Native.Nat.{ℕ}
use mathlib.Core.Path.{◌≡◌, refl, ap, ◌∙◌}
use mathlib.Core.Logic.{◌≢◌, ◌⊎◌, inl, inr}
use mathlib.Core.Bool.{Bool, true, false, ◌||◌}
use mathlib.Core.List.{List, [], ◌∷◌, ◌++◌, foldl, reverse, reverse-append}
use native.Mathlib.Omega.{arith}
use dvm.Base.Cond.{◌==◌, Bool-cases}
use dvm.Base.Lists.{All}
use dvm.Base.Strings.{Bytes, codes, ◌≟◌, ≟_iff, is_empty, split, join, cons_head, has_prefix}
use dvm.Base.Cuts.{Lacks}
use dvm.Base.FilePath.{dot, dot_dot, is_abs, pop, push, parts, render}
use dvm.Base.PathParts.{IsName}

cons_head-Lacks :
    (c sep : ℕ) (ps : List Bytes) → c ≢ sep → All (Lacks sep) ps → All (Lacks sep) (cons_head c ps)
cons_head-Lacks c sep [] h a = ((h, tt), tt)
cons_head-Lacks c sep (p ∷ ps) h (hp, hs) = ((h, hp), hs)

pub split-All : (s : Bytes) (sep : ℕ) → All (Lacks sep) (split s sep)
unfolding split
split-All [] sep = (tt, tt)
split-All (c ∷ s) sep = elim (Bool-cases (c == sep)) [
  | inl y ↦ rw y (tt, split-All s sep)
  | inr n ↦ rw n (cons_head-Lacks c sep (split s sep) (ground arith) (split-All s sep))
]

-- The first part of the path is `..`; the list has the last part first.
abbrev pub Leaves : List Bytes → Type 0
Leaves [] = ⊥
Leaves (p ∷ []) = p ≡ dot_dot
Leaves (p ∷ q ∷ st) = Leaves (q ∷ st)

-- The parts of a path: names only, or an unrooted path that leaves its directory.
abbrev pub IsStack : Bool → List Bytes → Type 0
IsStack rooted stack = All IsName stack ⊎ (rooted ≡ false) × Leaves stack

pop-IsStack : (r : Bool) (st : List Bytes) → IsStack r st → IsStack r (pop r st)
unfolding pop
pop-IsStack true [] h = inl tt
pop-IsStack false [] h = inr (refl, refl)
pop-IsStack r (q ∷ st) (inl (n, ns)) = elim (Bool-cases (q ≟ dot_dot)) [
  | inl y ↦ absurd (n.no_dots ((≟_iff q dot_dot).0 y))
  | inr f ↦ rw f (inl ns)
]
pop-IsStack r (q ∷ []) (inr (e, l)) = rw ((≟_iff q dot_dot).1 l) (inr (e, l))
pop-IsStack r (q ∷ x ∷ st) (inr (e, l)) = elim (Bool-cases (q ≟ dot_dot)) [
  | inl y ↦ rw y (inr (e, l))
  | inr f ↦ rw f (inr (e, l))
]

cons-Leaves : (p : Bytes) (st : List Bytes) → Leaves st → Leaves (p ∷ st)
cons-Leaves p [] l = absurd l
cons-Leaves p (q ∷ st) l = l

cons-IsStack :
    (r : Bool) (st : List Bytes) (p : Bytes) → IsName p → IsStack r st → IsStack r (p ∷ st)
cons-IsStack r st p n (inl ns) = inl (n, ns)
cons-IsStack r st p n (inr (e, l)) = inr (e, cons-Leaves p st l)

full_of : (p : Bytes) → is_empty p ≡ false → p ≢ []
full_of [] e = absurd (cc e)
full_of (c ∷ s) e = λ x. cc x

differs : (p q : Bytes) → (p ≟ q) ≡ false → p ≢ q
differs p q e = λ x. cc ((≟_iff p q).1 x, e)

push-IsStack :
    (r : Bool) (st : List Bytes) (p : Bytes) → Lacks b'/' p → IsStack r st → IsStack r (push r st p)
unfolding push
push-IsStack r st p lacks h = elim (Bool-cases (is_empty p || (p ≟ dot))) [
  | inl y ↦ rw (push, y) h
  | inr n ↦ elim (Bool-cases (p ≟ dot_dot)) [
    | inl y ↦ rw (push, n, y) (pop-IsStack r st h)
    | inr m ↦
        rw (push, n, m)
          (cons-IsStack r st p
            record {
              full = full_of p (or_left _ _ n);
              no_dot = differs p dot (or_right _ _ n);
              no_dots = differs p dot_dot m;
              no_slash = lacks;
            }
            h)
  ]
]
  where
    or_left : (a b : Bool) → (a || b) ≡ false → a ≡ false
    or_left true b e = cc
    or_left false b e = refl

    or_right : (a b : Bool) → (a || b) ≡ false → b ≡ false
    or_right true b e = cc
    or_right false b e = e

foldl-IsStack :
    (r : Bool) (st ps : List Bytes)
    → All (Lacks b'/') ps
    → IsStack r st
    → IsStack r (foldl (push r) st ps)
foldl-IsStack r st [] lacks h = h
foldl-IsStack r st (p ∷ ps) (lp, ls) h =
    foldl-IsStack r (push r st p) ps ls (push-IsStack r st p lp h)

-- What `parts` yields.
pub parts-IsStack : (s : Bytes) → IsStack (is_abs s) (parts s)
unfolding parts
parts-IsStack s = foldl-IsStack (is_abs s) [] (split s b'/') (split-All s b'/') (inl tt)

reverse_first : (st : List Bytes) → Leaves st → (rest : List Bytes) × (reverse st ≡ dot_dot ∷ rest)
reverse_first [] l = absurd l
reverse_first (p ∷ []) l = ([], ap (λ x. x ∷ []) l)
reverse_first (p ∷ q ∷ st) l =
    let (rest, e) = reverse_first (q ∷ st) l in
    (rest ++ (p ∷ []), reverse-append (p ∷ []) (q ∷ st) ∙ ap (λ x. x ++ (p ∷ [])) e)

join_first :
    (rest : List Bytes)
    → (has_prefix (join (dot_dot ∷ rest) (codes "/")) (codes "../")
        || (join (dot_dot ∷ rest) (codes "/") ≟ dot_dot))
      ≡ true
unfolding join has_prefix ◌≟◌
join_first [] = refl
join_first (x ∷ xs) = refl

-- A path that leaves its directory shows it when it is cleaned.
pub render-Leaves :
    (st : List Bytes)
    → Leaves st
    → (has_prefix (render false st) (codes "../") || (render false st ≟ dot_dot)) ≡ true
render-Leaves [] l = absurd l
render-Leaves (p ∷ st) l = let (rest, e) = reverse_first (p ∷ st) l in rw e (join_first rest)
