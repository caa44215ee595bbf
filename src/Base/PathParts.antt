-- ===== src/Base/PathParts.antt =====
-- Cleaned paths part by part: a plain name below a directory is the last part of the path.
use Prim.Native.Nat.{ℕ}
use mathlib.Core.Path.{◌≡◌, refl, sym, ap, ◌∙◌}
use mathlib.Core.Logic.{◌≢◌}
use mathlib.Core.Bool.{Bool, true, false}
use mathlib.Core.List.{List, [], ◌∷◌, ◌++◌, foldl-append, reverse, reverse-append, append_assoc}
use native.Mathlib.Omega.{arith}
use dvm.Base.Strings.{Bytes, codes, ≟_iff, split, join, cons_head}
use dvm.Base.Cuts.{Lacks, split-one}
use dvm.Base.FilePath.{dot, dot_dot, is_abs, push, parts, render, clean}

abbrev slash : Bytes
slash = codes "/"

-- A name that is one part of a path.
pub record IsName (p : Bytes) : Type 0 where
  pub full : p ≢ []
  pub no_dot : p ≢ dot
  pub no_dots : p ≢ dot_dot
  pub no_slash : Lacks b'/' p

cons_head-append :
    (c : ℕ) (ps qs : List Bytes) → ps ≢ [] → cons_head c (ps ++ qs) ≡ cons_head c ps ++ qs
cons_head-append c [] qs h = absurd (h refl)
cons_head-append c (p ∷ ps) qs h = refl

pub split-ne-nil : (s : Bytes) (sep : ℕ) → split s sep ≢ []
unfolding split
split-ne-nil [] sep e = cc
split-ne-nil (c ∷ s) sep e = ground (arith, split-ne-nil s sep)

pub split-append : (a b : Bytes) (sep : ℕ) → split (a ++ (sep ∷ b)) sep ≡ split a sep ++ split b sep
unfolding split
split-append [] b sep = ground arith
split-append (c ∷ a) b sep = ground (
  arith,
  split-append a b sep,
  cons_head-append c (split a sep) (split b sep) (split-ne-nil a sep),
)

pub push-IsName : (r : Bool) (st : List Bytes) (p : Bytes) → IsName p → push r st p ≡ p ∷ st
unfolding push
push-IsName r st [] n = absurd (n.full refl)
push-IsName r st (c ∷ p) n =
    ground (arith, ≟_iff (c ∷ p) dot, ≟_iff (c ∷ p) dot_dot, n.no_dot, n.no_dots)

pub parts-append : (a p : Bytes) → a ≢ [] → IsName p → parts (a ++ (b'/' ∷ p)) ≡ p ∷ parts a
unfolding parts
parts-append [] p h n = absurd (h refl)
parts-append (c ∷ a) p h n =
    rw (split-append (c ∷ a) p b'/', split-one p b'/' n.no_slash, foldl-append)
      (push-IsName _ _ p n)

-- What stands before the last part.
abbrev pub before_last : Bool → List Bytes → Bytes
before_last true [] = slash
before_last false [] = []
before_last true (q ∷ st) = b'/' ∷ (join (reverse (q ∷ st)) slash ++ slash)
before_last false (q ∷ st) = join (reverse (q ∷ st)) slash ++ slash

-- The first part is apart, so that the list is not empty.
pub join-snoc :
    (q : Bytes) (ps : List Bytes) (p sep : Bytes)
    → join ((q ∷ ps) ++ (p ∷ [])) sep ≡ join (q ∷ ps) sep ++ (sep ++ p)
unfolding join
join-snoc q [] p sep = refl
join-snoc q (r ∷ ps) p sep =
    ap (λ s. q ++ (sep ++ s)) (join-snoc r ps p sep)
    ∙ (ap (λ s. q ++ s) (sym (append_assoc sep (join (r ∷ ps) sep) (sep ++ p)))
        ∙ sym (append_assoc q (sep ++ join (r ∷ ps) sep) (sep ++ p)))

reverse-cons : (p : Bytes) (st : List Bytes) → reverse (p ∷ st) ≡ reverse st ++ (p ∷ [])
reverse-cons p st = reverse-append (p ∷ []) st

join-reverse :
    (p : Bytes) (rev : List Bytes)
    → rev ≢ []
    → join (rev ++ (p ∷ [])) slash ≡ (join rev slash ++ slash) ++ p
join-reverse p [] h = absurd (h refl)
join-reverse p (q ∷ ps) h = join-snoc q ps p slash ∙ sym (append_assoc _ slash p)

reverse-ne-nil : (q : Bytes) (st : List Bytes) → reverse (q ∷ st) ≢ []
reverse-ne-nil q st e = snoc-ne-nil (reverse st) (sym (reverse-cons q st) ∙ e)
  where
    snoc-ne-nil : (l : List Bytes) → l ++ (q ∷ []) ≢ []
    snoc-ne-nil [] x = cc
    snoc-ne-nil (y ∷ l) x = cc

pub render-cons :
    (r : Bool) (p : Bytes) (st : List Bytes) → render r (p ∷ st) ≡ before_last r st ++ p
render-cons true p [] = unfold join in refl
render-cons false p [] = unfold join in refl
render-cons true p (q ∷ st) =
    ap (λ s. b'/' ∷ s)
      (ap (λ l. join l slash) (reverse-cons p (q ∷ st))
        ∙ join-reverse p (reverse (q ∷ st)) (reverse-ne-nil q st))
render-cons false p (q ∷ st) =
    ap (λ l. join l slash) (reverse-cons p (q ∷ st))
    ∙ join-reverse p (reverse (q ∷ st)) (reverse-ne-nil q st)

pub is_abs-append : (a b : Bytes) → a ≢ [] → is_abs (a ++ b) ≡ is_abs a
is_abs-append [] b h = absurd (h refl)
is_abs-append (c ∷ a) b h = refl

-- A name joined to a path is its last part.
pub clean-append :
    (a p : Bytes)
    → a ≢ []
    → IsName p
    → clean (a ++ (b'/' ∷ p)) ≡ before_last (is_abs a) (parts a) ++ p
unfolding clean
clean-append a p h n =
    rw (parts-append a p h n, is_abs-append a (b'/' ∷ p) h) (render-cons (is_abs a) p (parts a))

pub append-cancel : (a b c : Bytes) → a ++ b ≡ a ++ c → b ≡ c
append-cancel [] b c e = e
append-cancel (x ∷ a) b c e = append-cancel a b c (tail_path e)
  where
    tail_of : Bytes → Bytes
    tail_of [] = []
    tail_of (y ∷ s) = s

    tail_path : ◌≡◌ {A = Bytes} (x ∷ (a ++ b)) (x ∷ (a ++ c)) → a ++ b ≡ a ++ c
    tail_path q = ap tail_of q
