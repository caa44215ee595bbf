-- ===== src/Base/PathJoin.antt =====
-- A cleaned path that does not leave its directory, joined to another directory, is below that.
use mathlib.Core.Path.{◌≡◌, refl, sym, ap, ◌∙◌, subst}
use mathlib.Core.Logic.{◌≢◌, ◌⊎◌, inl, inr}
use mathlib.Core.Bool.{Bool, true, false, ◌||◌}
use mathlib.Core.List.{
  List, [], ◌∷◌, ◌++◌, foldl, foldl-append, reverse, reverse-append, reverse-reverse, append_assoc,
}
use native.Mathlib.Omega.{arith}
use dvm.Base.Lists.{All, All-append}
use dvm.Base.Strings.{Bytes, codes, ◌≟◌, split, join, has_prefix}
use dvm.Base.Cuts.{Lacks, split-join}
use dvm.Base.FilePath.{dot, dot_dot, is_abs, push, parts, render, clean, join_path}
use dvm.Base.PathParts.{IsName, push-IsName, split-append, render-cons, is_abs-append}
use dvm.Base.PathShape.{Leaves, parts-IsStack, render-Leaves}

-- The same path, or one below it
abbrev pub IsUnder : Bytes → Bytes → Type 0
IsUnder base p = (p ≡ base) ⊎ ((rest : Bytes) × (p ≡ base ++ (b'/' ∷ rest)))

foldl-names :
    (r : Bool) (base ps : List Bytes) → All IsName ps → foldl (push r) base ps ≡ reverse ps ++ base
foldl-names r base [] h = refl
foldl-names r base (p ∷ ps) (n, ns) = rw (push-IsName r base p n) (
    foldl-names r (p ∷ base) ps ns
    ∙ (sym (append_assoc (reverse ps) (p ∷ []) base)
        ∙ ap (λ x. x ++ base) (sym (reverse-append (p ∷ []) ps))))

All-reverse : (ps : List Bytes) → All IsName ps → All IsName (reverse ps)
All-reverse [] h = tt
All-reverse (p ∷ ps) (n, ns) =
    rw (reverse-append (p ∷ []) ps)
      (All-append IsName (reverse ps) (p ∷ []) (All-reverse ps ns) (n, tt))

names_lack : (ps : List Bytes) → All IsName ps → All (Lacks b'/') ps
names_lack [] h = tt
names_lack (p ∷ ps) (n, ns) = (n.no_slash, names_lack ps ns)

-- Pushing a joined list of names
push_joined :
    (r : Bool) (base ps : List Bytes)
    → All IsName ps
    → foldl (push r) base (split (join ps (codes "/")) b'/') ≡ reverse ps ++ base
push_joined r base [] h = unfold join split push in refl
push_joined r base (p ∷ ps) h =
    rw (split-join p ps b'/' (names_lack (p ∷ ps) h)) (foldl-names r base (p ∷ ps) h)

split_slash : (s : Bytes) → split (b'/' ∷ s) b'/' ≡ [] ∷ split s b'/'
unfolding split
split_slash s = ground arith

push_reversed :
    (r : Bool) (base st : List Bytes)
    → All IsName st
    → foldl (push r) base (split (join (reverse st) (codes "/")) b'/') ≡ st ++ base
push_reversed r base st h =
    push_joined r base (reverse st) (All-reverse st h) ∙ ap (λ x. x ++ base) (reverse-reverse st)

push_empty : (r : Bool) (base : List Bytes) → push r base [] ≡ base
unfolding push
push_empty r base = refl

-- Pushing the parts of a path that is cleaned
pub push_rendered :
    (r rooted : Bool) (base st : List Bytes)
    → All IsName st
    → render rooted st ≢ dot
    → foldl (push r) base (split (render rooted st) b'/') ≡ st ++ base
push_rendered r true base st h some_part =
    ap (λ ps. foldl (push r) base ps) (split_slash (join (reverse st) (codes "/")))
    ∙ (ap (λ b. foldl (push r) b (split (join (reverse st) (codes "/")) b'/')) (push_empty r base)
        ∙ push_reversed r base st h)
push_rendered r false base [] h some_part = absurd (some_part refl)
push_rendered r false base (p ∷ st) h some_part = push_reversed r base (p ∷ st) h

render_step :
    (r : Bool) (p : Bytes) (st : List Bytes)
    → st ≢ []
    → render r (p ∷ st) ≡ render r st ++ (b'/' ∷ p)
render_step r p [] h = absurd (h refl)
render_step true p (q ∷ st) h =
    render-cons true p (q ∷ st)
    ∙ ap (λ x. b'/' ∷ x) (append_assoc (join (reverse (q ∷ st)) (codes "/")) (codes "/") p)
render_step false p (q ∷ st) h =
    render-cons false p (q ∷ st) ∙ append_assoc (join (reverse (q ∷ st)) (codes "/")) (codes "/") p

deeper : (base x p : Bytes) → IsUnder base x → IsUnder base (x ++ (b'/' ∷ p))
deeper base x p (inl e) = inr (p, ap (λ y. y ++ (b'/' ∷ p)) e)
deeper base x p (inr (rest, e)) =
    inr
      (rest ++ (b'/' ∷ p), ap (λ y. y ++ (b'/' ∷ p)) e ∙ append_assoc base (b'/' ∷ rest) (b'/' ∷ p))

append-ne-nil : (st base : List Bytes) → base ≢ [] → st ++ base ≢ []
append-ne-nil [] base h = h
append-ne-nil (x ∷ st) base h = λ e. cc e

render-IsUnder :
    (r : Bool) (base st : List Bytes) → base ≢ [] → IsUnder (render r base) (render r (st ++ base))
render-IsUnder r base [] h = inl refl
render-IsUnder r base (p ∷ st) h =
    subst (IsUnder (render r base)) (sym (render_step r p (st ++ base) (append-ne-nil st base h)))
      (deeper (render r base) (render r (st ++ base)) p (render-IsUnder r base st h))

-- The parts of a cleaned path joined to a directory that is not the working one or the root
parts_joined :
    (dest name : Bytes)
    → dest ≢ []
    → All IsName (parts name)
    → clean name ≢ dot
    → parts (dest ++ (b'/' ∷ clean name)) ≡ parts name ++ parts dest
unfolding parts clean
parts_joined dest name full names some_part =
    rw
      (
        split-append dest (clean name) b'/',
        is_abs-append dest (b'/' ∷ clean name) full,
        foldl-append,
      )
      (push_rendered (is_abs dest) (is_abs name) _ (parts name) names some_part)

leaving_shows :
    (name : Bytes)
    → is_abs name ≡ false
    → Leaves (parts name)
    → (has_prefix (clean name) (codes "../") || (clean name ≟ dot_dot)) ≡ true
unfolding clean
leaving_shows name e l =
    subst
      (λ b.
        (has_prefix (render b (parts name)) (codes "../") || (render b (parts name) ≟ dot_dot))
        ≡ true)
      (sym e) (render-Leaves (parts name) l)

names_of :
    (name : Bytes)
    → (has_prefix (clean name) (codes "../") || (clean name ≟ dot_dot)) ≡ false
    → All IsName (parts name)
names_of name stays = elim (parts-IsStack name) [
  | inl ns ↦ ns
  | inr (e, l) ↦ absurd (cc (stays, leaving_shows name e l))
]

clean_joined :
    (dest name : Bytes)
    → dest ≢ []
    → parts dest ≢ []
    → clean name ≢ dot
    → All IsName (parts name)
    → IsUnder (clean dest) (clean (dest ++ (b'/' ∷ clean name)))
unfolding clean
clean_joined dest name full some_dest some_part names =
    rw (parts_joined dest name full names some_part, is_abs-append dest (b'/' ∷ clean name) full)
      (render-IsUnder (is_abs dest) (parts dest) (parts name) some_dest)

-- A cleaned name that is neither `.` nor leaves its directory stays below the directory that it is
-- joined to.
pub join_path-IsUnder :
    (dest name : Bytes)
    → parts dest ≢ []
    → clean name ≢ dot
    → (has_prefix (clean name) (codes "../") || (clean name ≟ dot_dot)) ≡ false
    → IsUnder (clean dest) (join_path (dest ∷ clean name ∷ []))
unfolding join_path join
join_path-IsUnder [] name some_dest some_part stays =
    absurd (some_dest (unfold parts split push in refl))
join_path-IsUnder (c ∷ dest) name some_dest some_part stays =
    clean_joined (c ∷ dest) name (λ e. cc e) some_dest some_part (names_of name stays)
