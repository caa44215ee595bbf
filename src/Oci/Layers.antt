-- ===== src/Oci/Layers.antt =====
-- Which layer and which manifest are chosen.
use dvm.Base.{
  ℤ, pos, negsuc, leb_int, ltb_int, Bytes, codes, ◌≟◌, ≟_iff, is_empty, Elem, All, Bool, true,
  false,
}
use dvm.Base.{
  Option, none, some, List, [], ◌∷◌, ◌≡◌, ◌⊎◌, inl, inr, refl, arith, Bool-cases, Option-cases,
  ◌&&◌, ◌||◌,
}
use dvm.Oci.Manifest.{
  Target, Descriptor, is_sidecar, expected_media_types, is_wanted, first_wanted, by_media_type,
}
use dvm.Oci.Manifest.{larger, largest, select_primary_layer, is_target, select_platform_manifest}

-- The layer's type is one that the component's name asks for.
abbrev pub is_expected : Bytes → Descriptor → Bool
is_expected name l = elim (expected_media_types name) [
  | none ↦ false
  | some want ↦ is_wanted want l.media_type
]

first_wanted-cases :
    (want : List Bytes) (ls : List Descriptor)
    → ((l : Descriptor) × (first_wanted want ls ≡ some l)
        × Elem l ls
        × (is_wanted want l.media_type ≡ true))
      ⊎ (first_wanted want ls ≡ none) × All (λ x. is_wanted want x.media_type ≡ false) ls
unfolding first_wanted
first_wanted-cases want [] = inr (refl, tt)
first_wanted-cases want (x ∷ ls) = elim (Bool-cases (is_wanted want x.media_type)) [
  | inl e ↦ inl (x, rw e refl, inl refl, e)
  | inr e ↦ elim (first_wanted-cases want ls) [
    | inl (l, f, m, w) ↦ inl (l, rw e f, inr m, w)
    | inr (f, a) ↦ inr (rw e f, (e, a))
  ]
]

leb_int_refl : (a : ℤ) → leb_int a a ≡ true
leb_int_refl (pos a) = ground arith
leb_int_refl (negsuc a) = ground arith

leb_int_trans : (a b c : ℤ) → leb_int a b ≡ true → leb_int b c ≡ true → leb_int a c ≡ true
leb_int_trans (pos a) (pos b) (pos c) h k = ground arith
leb_int_trans (pos a) (pos b) (negsuc c) h k = cc
leb_int_trans (pos a) (negsuc b) c h k = cc
leb_int_trans (negsuc a) b (pos c) h k = refl
leb_int_trans (negsuc a) (pos b) (negsuc c) h k = cc
leb_int_trans (negsuc a) (negsuc b) (negsuc c) h k = ground arith

ltb_int-true : (a b : ℤ) → ltb_int a b ≡ true → leb_int a b ≡ true
ltb_int-true (pos a) (pos b) h = ground arith
ltb_int-true (pos a) (negsuc b) h = cc
ltb_int-true (negsuc a) (pos b) h = refl
ltb_int-true (negsuc a) (negsuc b) h = ground arith

ltb_int-false : (a b : ℤ) → ltb_int a b ≡ false → leb_int b a ≡ true
ltb_int-false (pos a) (pos b) h = ground arith
ltb_int-false (pos a) (negsuc b) h = refl
ltb_int-false (negsuc a) (pos b) h = cc
ltb_int-false (negsuc a) (negsuc b) h = ground arith

-- No payload of the list is larger than `l`.
abbrev pub IsMaximal : Descriptor → List Descriptor → Type 0
IsMaximal l ls = All (λ x. is_sidecar x ≡ false → leb_int x.size l.size ≡ true) ls

-- The loop from a best layer on: it ends with that layer or a payload of the rest.
largest-some :
    (best : Descriptor) (ls : List Descriptor)
    → (l : Descriptor) × (largest (some best) ls ≡ some l)
      × ((l ≡ best) ⊎ Elem l ls × (is_sidecar l ≡ false))
      × (leb_int best.size l.size ≡ true)
      × IsMaximal l ls
unfolding largest larger
largest-some best [] = (best, refl, inl refl, leb_int_refl best.size, tt)
largest-some best (x ∷ ls) = elim (Bool-cases (is_sidecar x)) [
  | inl e ↦
      let (l, f, m, le, a) = largest-some best ls in
      (
        l,
        rw e f,
        elim m [ inl b ↦ inl b | inr (y, p) ↦ inr (inr y, p) ],
        le,
        (λ n. absurd (cc (e, n)), a),
      )
  | inr e ↦ elim (Bool-cases (ltb_int best.size x.size)) [
    | inl lt ↦
        let (l, f, m, le, a) = largest-some x ls in
        (
          l,
          rw (e, lt) f,
          elim m [ inl b ↦ inr (inl b, rw b e) | inr (y, p) ↦ inr (inr y, p) ],
          leb_int_trans best.size x.size l.size (ltb_int-true best.size x.size lt) le,
          (λ n. le, a),
        )
    | inr ge ↦
        let (l, f, m, le, a) = largest-some best ls in
        (
          l,
          rw (e, ge) f,
          elim m [ inl b ↦ inl b | inr (y, p) ↦ inr (inr y, p) ],
          le,
          (λ n. leb_int_trans x.size best.size l.size (ltb_int-false best.size x.size ge) le, a),
        )
  ]
]

largest-cases :
    (ls : List Descriptor)
    → ((l : Descriptor) × (largest none ls ≡ some l)
        × Elem l ls
        × (is_sidecar l ≡ false)
        × IsMaximal l ls)
      ⊎ (largest none ls ≡ none) × All (λ x. is_sidecar x ≡ true) ls
unfolding largest larger
largest-cases [] = inr (refl, tt)
largest-cases (x ∷ ls) = elim (Bool-cases (is_sidecar x)) [
  | inl e ↦ elim (largest-cases ls) [
    | inl (l, f, m, p, a) ↦ inl (l, rw e f, inr m, p, (λ n. absurd (cc (e, n)), a))
    | inr (f, a) ↦ inr (rw e f, (e, a))
  ]
  | inr e ↦
      let (l, f, m, le, a) = largest-some x ls in
      inl (
        l,
        rw e f,
        elim m [ inl b ↦ inl b | inr (y, p) ↦ inr y ],
        elim m [ inl b ↦ rw b e | inr (y, p) ↦ p ],
        (λ n. le, a),
      )
]

by_media_type-cases :
    (name : Bytes) (ls : List Descriptor)
    → ((l : Descriptor) × (by_media_type name ls ≡ some l)
        × Elem l ls
        × (is_expected name l ≡ true))
      ⊎ (by_media_type name ls ≡ none) × All (λ x. is_expected name x ≡ false) ls
unfolding by_media_type
by_media_type-cases name ls = go (expected_media_types name)
  where
    none_expected : (xs : List Descriptor) → All (λ x. false ≡ false) xs
    none_expected [] = tt
    none_expected (x ∷ xs) = (refl, none_expected xs)

    go :
        (o : Option (List Bytes))
        → ((l : Descriptor) × (elim o [ none ↦ none | some want ↦ first_wanted want ls ] ≡ some l)
            × Elem l ls
            × (elim o [ none ↦ false | some want ↦ is_wanted want l.media_type ] ≡ true))
          ⊎ (elim o [ none ↦ none | some want ↦ first_wanted want ls ] ≡ none)
            × All
                (λ (x : Descriptor).
                  elim o [ none ↦ false | some want ↦ is_wanted want x.media_type ] ≡ false)
                ls
    go none = inr (refl, none_expected ls)
    go (some want) = first_wanted-cases want ls

-- The layer of a component is one of the manifest. It has a media type that the name asks for, or
-- no layer has and it is a payload, which no other payload exceeds in size. Or there is no layer,
-- no layer's type is asked for, and all are sidecars.
pub select_primary_layer_lem :
    (name : Bytes) (ls : List Descriptor)
    → ((l : Descriptor) × (select_primary_layer name ls ≡ some l)
        × Elem l ls
        × ((is_expected name l ≡ true)
            ⊎ All (λ x. is_expected name x ≡ false) ls × (is_sidecar l ≡ false) × IsMaximal l ls))
      ⊎ (select_primary_layer name ls ≡ none)
        × All (λ x. is_expected name x ≡ false) ls
        × All (λ x. is_sidecar x ≡ true) ls
unfolding select_primary_layer
select_primary_layer_lem name ls = elim (by_media_type-cases name ls) [
  | inl (l, f, m, w) ↦ inl (l, rw (select_primary_layer, f) refl, m, inl w)
  | inr (f, u) ↦ elim (largest-cases ls) [
    | inl (l, g, m, p, a) ↦ inl (l, rw (select_primary_layer, f) g, m, inr (u, p, a))
    | inr (g, a) ↦ inr (rw (select_primary_layer, f) g, u, a)
  ]
]

-- The platform of a manifest fits the architecture, on Linux or without a system.
abbrev pub Fits : Bytes → Descriptor → Type 0
Fits arch m =
    (p : Target) × (m.platform ≡ some p)
    × (p.architecture ≡ arch)
    × ((p.os ≡ []) ⊎ (p.os ≡ codes "linux"))

is_target-Fits : (arch : Bytes) (m : Descriptor) → is_target arch m.platform ≡ true → Fits arch m
unfolding is_target
is_target-Fits arch m h = elim (Option-cases m.platform) [
  | inl e ↦ absurd (cc (rw (e, is_target) at h))
  | inr (p, e) ↦ fit p e (rw (e, is_target) at h)
]
  where
    both : (b c : Bool) → (b && c) ≡ true → (b ≡ true) × (c ≡ true)
    both true c k = (refl, k)
    both false c k = absurd (cc k)

    system :
        (os : Bytes)
        → (is_empty os || (os ≟ codes "linux")) ≡ true
        → (os ≡ []) ⊎ (os ≡ codes "linux")
    system [] k = inl refl
    system (c ∷ os) k = inr ((≟_iff (c ∷ os) (codes "linux")).0 k)

    fit : (p : Target) → m.platform ≡ some p → is_target arch (some p) ≡ true → Fits arch m
    fit p e k = let (a, s) = both _ _ k in (p, e, (≟_iff p.architecture arch).0 a, system p.os s)

-- The manifest of an index is one of its entries and fits the architecture, or there is none, and no
-- entry is meant for it.
pub select_platform_manifest_lem :
    (arch : Bytes) (ms : List Descriptor)
    → ((m : Descriptor) × (select_platform_manifest ms arch ≡ some m) × Elem m ms × Fits arch m)
      ⊎ (select_platform_manifest ms arch ≡ none) × All (λ m. is_target arch m.platform ≡ false) ms
unfolding select_platform_manifest
select_platform_manifest_lem arch [] = inr (refl, tt)
select_platform_manifest_lem arch (x ∷ ms) = elim (Bool-cases (is_target arch x.platform)) [
  | inl e ↦ inl (x, rw e refl, inl refl, is_target-Fits arch x e)
  | inr e ↦ elim (select_platform_manifest_lem arch ms) [
    | inl (m, f, y, t) ↦ inl (m, rw e f, inr y, t)
    | inr (f, a) ↦ inr (rw e f, (e, a))
  ]
]
