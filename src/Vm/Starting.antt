-- ===== src/Vm/Starting.antt =====
-- Which accelerator QEMU runs with.
use dvm.Base.{
  Bytes, Elem, All, Option, none, some, List, [], ◌∷◌, ◌++◌, Result, ok, err, ◌≡◌, ◌≢◌, ◌⊎◌, inl,
  inr, refl, Result-cases,
}
use dvm.Qemu.{Spec, BuildError, build_args}
use dvm.Vm.Start.{
  Launch, not_started, exited, running, StartError, or_no_candidates, bad_spec, start_failed,
  exited_early, try_accels, candidates_or, start_with_fallback,
}

module _ (start : List Bytes → Launch) (spec : Spec) where
  -- QEMU survives the grace period with the accelerator.
  abbrev pub Survives : Bytes → Type 0
  Survives accel =
      (args : List Bytes) × (build_args (record spec { accel = accel }) ≡ ok args)
      × (start args ≡ running)

  -- QEMU is not started, or ends within the grace period.
  abbrev pub Fails : Bytes → Type 0
  Fails accel =
      (args : List Bytes) × (build_args (record spec { accel = accel }) ≡ ok args)
      × (start args ≢ running)

  -- The first accelerator that survives.
  abbrev pub IsFirst : List Bytes → Bytes → Type 0
  IsFirst cands a =
      (before : List Bytes) × (after : List Bytes) × (cands ≡ before ++ (a ∷ after))
      × All Fails before
      × Survives a

  -- The specification cannot be built for one of the accelerators.
  abbrev pub IsBad : List Bytes → Type 0
  IsBad cands =
      (a : Bytes) × (e : BuildError) × Elem a cands
      × (build_args (record spec { accel = a }) ≡ err e)

  abbrev pub Found : List Bytes → Result StartError Bytes → Type 0
  Found cands r =
      ((a : Bytes) × (r ≡ ok a) × IsFirst cands a)
      ⊎ ((e : StartError) × (r ≡ err e) × (All Fails cands ⊎ IsBad cands))

  Found-later :
      (a : Bytes) (cands : List Bytes) (r : Result StartError Bytes)
      → Fails a
      → Found cands r
      → Found (a ∷ cands) r
  Found-later a cands r f (inl (b, e, (before, after, split, fs, s))) =
      inl (b, e, (a ∷ before, after, rw split refl, (f, fs), s))
  Found-later a cands r f (inr (e, x, inl fs)) = inr (e, x, inl (f, fs))
  Found-later a cands r f (inr (e, x, inr (b, d, m, h))) = inr (e, x, inr (b, d, inr m, h))

  abbrev launched : Bytes → List Bytes → Launch → Result StartError Bytes
  launched b rest not_started = try_accels start spec (some (start_failed b)) rest
  launched b rest exited = try_accels start spec (some (exited_early b)) rest
  launched b rest running = ok b

  abbrev built : Bytes → List Bytes → Result BuildError (List Bytes) → Result StartError Bytes
  built b rest r = elim r [ err e ↦ err (bad_spec e) | ok args ↦ launched b rest (start args) ]

  launched_lem :
      (b : Bytes) (rest args : List Bytes)
      → ((last : Option StartError) → Found rest (try_accels start spec last rest))
      → build_args (record spec { accel = b }) ≡ ok args
      → (l : Launch) → start args ≡ l
      → Found (b ∷ rest) (launched b rest l)
  launched_lem b rest args later h running s = inl (b, refl, ([], rest, refl, tt, (args, h, s)))
  launched_lem b rest args later h exited s =
      Found-later b rest _ (args, h, λ r. cc (s, r)) (later (some (exited_early b)))
  launched_lem b rest args later h not_started s =
      Found-later b rest _ (args, h, λ r. cc (s, r)) (later (some (start_failed b)))

  try_accels_lem :
      (last : Option StartError) (cands : List Bytes)
      → Found cands (try_accels start spec last cands)
  unfolding try_accels
  try_accels_lem last [] = inr (or_no_candidates last, refl, inl tt)
  try_accels_lem last (a ∷ cands) =
      let later : (l : Option StartError) → Found cands (try_accels start spec l cands) =
        λ l. try_accels_lem l cands in
      Result-cases
        (λ r. build_args (record spec { accel = a }) ≡ r → Found (a ∷ cands) (built a cands r))
        (build_args (record spec { accel = a }))
        (λ args h same. launched_lem a cands args later h (start args) refl)
        (λ e h same. inr (bad_spec e, refl, inr (a, e, inl refl, h))) refl

  -- The accelerator of the running machine is the first candidate with which QEMU survives the grace
  -- period. The start fails only if QEMU fails with every candidate, or no arguments can be built.
  pub start_with_fallback_lem :
      (cands : List Bytes)
      → ((a : Bytes) × (start_with_fallback start spec cands ≡ ok a)
          × IsFirst (candidates_or cands spec) a)
        ⊎ ((e : StartError) × (start_with_fallback start spec cands ≡ err e)
            × (All Fails (candidates_or cands spec) ⊎ IsBad (candidates_or cands spec)))
  unfolding start_with_fallback
  start_with_fallback_lem cands = try_accels_lem none (candidates_or cands spec)
