-- ===== src/Qemu/Candidates.antt =====
-- Which accelerators are tried.
use dvm.Base.{Bytes, ≟_iff, true, false, List, [], ◌∷◌, ◌++◌}
use dvm.Base.{
  Elem, Elem-append, IsNodup, IsNodup-snoc, Elem-append-left, Elem-append-right, Bool-cases,
}
use dvm.Base.{◌≡◌, ◌≢◌, ◌⊎◌, ◌↔◌, inl, inr, refl, arith}
use dvm.Host.{Host}
use dvm.Qemu.Accel.{tcg, accel_available, is_seen, is_skipped, collect_accels, or_default}
use dvm.Qemu.Accel.{accel_candidates}

pub is_seen_iff : (a : Bytes) (bs : List Bytes) → (is_seen a bs ≡ true) ↔ Elem a bs
unfolding is_seen
is_seen_iff a [] = (λ h. cc, λ h. absurd h)
is_seen_iff a (b ∷ bs) = (
  λ h. ground (arith, ≟_iff a b, is_seen_iff a bs),
  λ h. ground (arith, ≟_iff a b, is_seen_iff a bs),
)

-- The accelerators that may be tried.
abbrev pub IsUsable : Host → Bytes → Type 0
IsUsable h a = (a ≡ tcg) ⊎ (accel_available h a ≡ true)

abbrev Same : List Bytes → List Bytes → Type 0
Same out seen = (a : Bytes) → Elem a out ↔ Elem a seen

Same-snoc : (out seen : List Bytes) (b : Bytes) → Same out seen → Same (out ++ (b ∷ [])) (b ∷ seen)
Same-snoc out seen b same a = (
  λ m. elim (Elem-append a out (b ∷ []) m) [
    | inl l ↦ inr ((same a).0 l)
    | inr (inl e) ↦ inl e
    | inr (inr e) ↦ absurd e
  ],
  λ m. elim m [
    | inl e ↦ Elem-append-right a out (b ∷ []) (inl e)
    | inr r ↦ Elem-append-left a out (b ∷ []) ((same a).1 r)
  ],
)

module _ (h : Host) where
  kept-IsUsable :
      (b : Bytes) (seen : List Bytes) → is_skipped h b seen ≡ false → IsUsable h b × (¬ Elem b seen)
  unfolding is_skipped
  kept-IsUsable b seen e = ground (arith, ≟_iff b tcg, is_seen_iff b seen)

  skipped-cases :
      (b : Bytes) (seen : List Bytes) → is_skipped h b seen ≡ true → Elem b seen ⊎ (¬ IsUsable h b)
  unfolding is_skipped
  skipped-cases b seen e = elim (Bool-cases (is_seen b seen)) [
    | inl y ↦ inl ((is_seen_iff b seen).0 y)
    | inr n ↦ inr (λ u. ground (arith, ≟_iff b tcg))
  ]

  Elem-collect :
      (pref out seen : List Bytes) (a : Bytes)
      → Elem a out
      → Elem a (collect_accels h pref out seen)
  unfolding collect_accels
  Elem-collect [] out seen a m = elim (Bool-cases (is_seen tcg seen)) [
    | inl e ↦ rw e m
    | inr e ↦ rw e (Elem-append-left a out (tcg ∷ []) m)
  ]
  Elem-collect (b ∷ pref) out seen a m = elim (Bool-cases (is_skipped h b seen)) [
    | inl e ↦ rw e (Elem-collect pref out seen a m)
    | inr e ↦
        rw e (Elem-collect pref (out ++ (b ∷ [])) (b ∷ seen) a (Elem-append-left a out (b ∷ []) m))
  ]

  collect-tcg :
      (pref out seen : List Bytes) → Same out seen → Elem tcg (collect_accels h pref out seen)
  unfolding collect_accels
  collect-tcg [] out seen same = elim (Bool-cases (is_seen tcg seen)) [
    | inl e ↦ rw e ((same tcg).1 ((is_seen_iff tcg seen).0 e))
    | inr e ↦ rw e (Elem-append-right tcg out (tcg ∷ []) (inl refl))
  ]
  collect-tcg (b ∷ pref) out seen same = elim (Bool-cases (is_skipped h b seen)) [
    | inl e ↦ rw e (collect-tcg pref out seen same)
    | inr e ↦ rw e (collect-tcg pref (out ++ (b ∷ [])) (b ∷ seen) (Same-snoc out seen b same))
  ]

  collect_complete :
      (pref out seen : List Bytes) (a : Bytes)
      → Same out seen
      → Elem a pref
      → IsUsable h a
      → Elem a (collect_accels h pref out seen)
  unfolding collect_accels
  collect_complete [] out seen a same m u = elim m [ ]
  collect_complete (b ∷ pref) out seen a same m u = elim (Bool-cases (is_skipped h b seen)) [
    | inl e ↦ rw e (elim m [
      | inr r ↦ collect_complete pref out seen a same r u
      | inl eq ↦ elim (skipped-cases b seen e) [
        | inl old ↦ Elem-collect pref out seen a (rw eq ((same b).1 old))
        | inr bad ↦ absurd (bad (rw eq at u))
      ]
    ])
    | inr e ↦ rw e (elim m [
      | inr r ↦ collect_complete pref (out ++ (b ∷ [])) (b ∷ seen) a (Same-snoc out seen b same) r u
      | inl eq ↦
          Elem-collect pref (out ++ (b ∷ [])) (b ∷ seen) a
            (Elem-append-right a out (b ∷ []) (inl eq))
    ])
  ]

  -- Where a candidate comes from.
  abbrev From : List Bytes → List Bytes → Bytes → Type 0
  From pref out a = Elem a out ⊎ Elem a pref × IsUsable h a ⊎ (a ≡ tcg)

  collect_sound :
      (pref out seen : List Bytes) (a : Bytes)
      → Elem a (collect_accels h pref out seen)
      → From pref out a
  unfolding collect_accels
  collect_sound [] out seen a = elim (Bool-cases (is_seen tcg seen)) [
    | inl e ↦ rw e (λ m. inl m)
    | inr e ↦ rw e (λ m. elim (Elem-append a out (tcg ∷ []) m) [
      | inl l ↦ inl l
      | inr (inl t) ↦ inr (inr t)
      | inr (inr t) ↦ absurd t
    ])
  ]
  collect_sound (b ∷ pref) out seen a = elim (Bool-cases (is_skipped h b seen)) [
    | inl e ↦ rw e (λ m. elim (collect_sound pref out seen a m) [
      | inl l ↦ inl l
      | inr (inl (r, u)) ↦ inr (inl (inr r, u))
      | inr (inr t) ↦ inr (inr t)
    ])
    | inr e ↦ rw e (λ m. elim (collect_sound pref (out ++ (b ∷ [])) (b ∷ seen) a m) [
      | inl l ↦ elim (Elem-append a out (b ∷ []) l) [
        | inl old ↦ inl old
        | inr (inl eq) ↦ inr (inl (inl eq, rw eq (kept-IsUsable b seen e).0))
        | inr (inr eq) ↦ absurd eq
      ]
      | inr (inl (r, u)) ↦ inr (inl (inr r, u))
      | inr (inr t) ↦ inr (inr t)
    ])
  ]

  collect-IsNodup :
      (pref out seen : List Bytes)
      → Same out seen
      → IsNodup out
      → IsNodup (collect_accels h pref out seen)
  unfolding collect_accels
  collect-IsNodup [] out seen same once = elim (Bool-cases (is_seen tcg seen)) [
    | inl e ↦ rw e once
    | inr e ↦ rw e (IsNodup-snoc out tcg once (λ m. ground (arith, is_seen_iff tcg seen, same tcg)))
  ]
  collect-IsNodup (b ∷ pref) out seen same once = elim (Bool-cases (is_skipped h b seen)) [
    | inl e ↦ rw e (collect-IsNodup pref out seen same once)
    | inr e ↦ rw e (
        collect-IsNodup pref (out ++ (b ∷ [])) (b ∷ seen) (Same-snoc out seen b same)
          (IsNodup-snoc out b once (λ m. (kept-IsUsable b seen e).1 ((same b).0 m))))
  ]

  -- The candidates hold no name twice, and hold tcg; another name is among them exactly if the
  -- preference (the built-in one if none is configured) lists it and the host offers it.
  pub accel_candidates_lem :
      (pref : List Bytes)
      → IsNodup (accel_candidates h pref)
        × Elem tcg (accel_candidates h pref)
        × ((a : Bytes)
            → a ≢ tcg
            → Elem a (accel_candidates h pref)
              ↔ (Elem a (or_default h pref) × (accel_available h a ≡ true)))
  unfolding accel_candidates
  accel_candidates_lem pref = (
    collect-IsNodup (or_default h pref) [] [] (λ a. (λ m. m, λ m. m)) tt,
    collect-tcg (or_default h pref) [] [] (λ a. (λ m. m, λ m. m)),
    λ a not_tcg. (
      λ m. elim (collect_sound (or_default h pref) [] [] a m) [
        | inl z ↦ absurd z
        | inr (inl (r, inl t)) ↦ absurd (not_tcg t)
        | inr (inl (r, inr u)) ↦ (r, u)
        | inr (inr t) ↦ absurd (not_tcg t)
      ],
      λ (m, u). collect_complete (or_default h pref) [] [] a (λ a. (λ m. m, λ m. m)) m (inr u),
    ),
  )
