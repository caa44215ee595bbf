-- ===== src/Base/Lists.antt =====
-- Lists measured by native numbers, and predicates on them by recursion.
use Prim.Native.Nat.{ℕ, zero, suc, ◌+◌}
use mathlib.Core.Path.{◌≡◌, refl, sym, ap}
use mathlib.Core.Logic.{◌⊎◌, inl, inr}
use mathlib.Core.List.{List, [], ◌∷◌, ◌++◌, map}
use native.Mathlib.Omega.{arith}

module _ {ℓ} {A : Type ℓ} where
  abbrev pub length : List A → ℕ
  length [] = 0
  length (x ∷ xs) = suc (length xs)

  abbrev pub take : ℕ → List A → List A
  take zero xs = []
  take (suc n) [] = []
  take (suc n) (x ∷ xs) = x ∷ take n xs

  abbrev pub drop : ℕ → List A → List A
  drop zero xs = xs
  drop (suc n) [] = []
  drop (suc n) (x ∷ xs) = drop n xs

  pub length-append : (xs ys : List A) → length (xs ++ ys) ≡ length xs + length ys
  length-append [] ys = omega arith
  length-append (x ∷ xs) ys = omega (arith, length-append xs ys)

  pub drop-append : (xs ys : List A) → drop (length xs) (xs ++ ys) ≡ ys
  drop-append [] ys = refl
  drop-append (x ∷ xs) ys = drop-append xs ys

  pub take-append : (xs ys : List A) → take (length xs) (xs ++ ys) ≡ xs
  take-append [] ys = refl
  take-append (x ∷ xs) ys = rw (take-append xs ys)

module _ {A : Type 0} where
  -- `a` stands in the list.
  abbrev pub Elem : A → List A → Type 0
  Elem a [] = ⊥
  Elem a (x ∷ xs) = (a ≡ x) ⊎ Elem a xs

  pub Elem-append-left : (a : A) (xs ys : List A) → Elem a xs → Elem a (xs ++ ys)
  Elem-append-left a [] ys m = elim m [ ]
  Elem-append-left a (x ∷ xs) ys (inl e) = inl e
  Elem-append-left a (x ∷ xs) ys (inr m) = inr (Elem-append-left a xs ys m)

  pub Elem-append-right : (a : A) (xs ys : List A) → Elem a ys → Elem a (xs ++ ys)
  Elem-append-right a [] ys m = m
  Elem-append-right a (x ∷ xs) ys m = inr (Elem-append-right a xs ys m)

  pub Elem-append : (a : A) (xs ys : List A) → Elem a (xs ++ ys) → Elem a xs ⊎ Elem a ys
  Elem-append a [] ys m = inr m
  Elem-append a (x ∷ xs) ys (inl e) = inl (inl e)
  Elem-append a (x ∷ xs) ys (inr m) = elim (Elem-append a xs ys m) [
    | inl l ↦ inl (inr l)
    | inr r ↦ inr r
  ]

  -- No value stands twice.
  abbrev pub IsNodup : List A → Type 0
  IsNodup [] = Unit
  IsNodup (x ∷ xs) = (¬ Elem x xs) × IsNodup xs

  pub IsNodup-snoc : (xs : List A) (a : A) → IsNodup xs → ¬ Elem a xs → IsNodup (xs ++ (a ∷ []))
  IsNodup-snoc [] a h n = (λ m. m, tt)
  IsNodup-snoc (x ∷ xs) a (hx, hxs) n = (
    λ m. elim (Elem-append x xs (a ∷ []) m) [
      | inl l ↦ hx l
      | inr (inl e) ↦ n (inl (sym e))
      | inr (inr e) ↦ e
    ],
    IsNodup-snoc xs a hxs (λ m. n (inr m)),
  )

module _ {ℓ κ} {A : Type ℓ} (P : A → Type κ) where
  abbrev pub All : List A → Type κ
  All [] = Unit
  All (x ∷ xs) = P x × All xs

  pub All-append : (xs ys : List A) → All xs → All ys → All (xs ++ ys)
  All-append [] ys hx hy = hy
  All-append (x ∷ xs) ys (px, hx) hy = (px, All-append xs ys hx hy)

module _ {A B : Type 0} where
  pub Elem-map : (f : A → B) (a : A) (xs : List A) → Elem a xs → Elem (f a) (map f xs)
  Elem-map f a [] m = elim m [ ]
  Elem-map f a (x ∷ xs) (inl e) = inl (ap f e)
  Elem-map f a (x ∷ xs) (inr m) = inr (Elem-map f a xs m)

  pub map-Elem :
      (f : A → B) (b : B) (xs : List A) → Elem b (map f xs) → (a : A) × Elem a xs × (b ≡ f a)
  map-Elem f b [] m = elim m [ ]
  map-Elem f b (x ∷ xs) (inl e) = (x, inl refl, e)
  map-Elem f b (x ∷ xs) (inr m) = let (a, e, p) = map-Elem f b xs m in (a, inr e, p)
