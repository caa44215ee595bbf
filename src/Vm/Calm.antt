-- ===== src/Vm/Calm.antt =====
-- Overlapping calls of `AcquireLock` of which none takes the lock file for stale.
use dvm.Base.{
  ℕ, ℤ, Bool, ◌==◌, none, ◌≡◌, ◌≢◌, ◌⊎◌, inl, inr, refl, sym, subst, ◌∙◌, arith, Bool-cases,
}
use dvm.Vm.Race.{
  Files, update, Pc, idle, created, removing, holding, Move, begin, create, cannot_open, exists,
  write, read, unreadable, held, stale, removed, removed_last, cannot_remove, release,
  cannot_release, Processes, moved,
}
use dvm.Vm.Racing.{update_self, update_other}

-- The process does not take the file for stale.
abbrev pub IsCalm : Pc → Type 0
IsCalm (removing k) = ⊥
IsCalm p = Unit

-- A schedule in which no process ever does
pub data CalmSchedule (alive : ℤ → Bool) (s : Processes) : Processes → Type 0 where
  start : CalmSchedule alive s s
  call :
      {t : Processes} {p p' : Pc} {m : Files}
      → CalmSchedule alive s t
      → (n : ℕ) → t.pc n ≡ p
      → Move alive n t.files p m p'
      → IsCalm p'
      → CalmSchedule alive s (moved t n m p')

-- The process has created the lock file, and has not yet released it.
abbrev pub IsOwner : Pc → Type 0
IsOwner (created i) = Unit
IsOwner holding = Unit
IsOwner p = ⊥

pub record IsSole (t : Processes) : Type 0 where
  pub locked : (k : ℕ) → IsOwner (t.pc k) → t.files.lock ≢ none
  pub sole : (k l : ℕ) → IsOwner (t.pc k) → IsOwner (t.pc l) → k ≡ l
  pub calm : (k : ℕ) → IsCalm (t.pc k)

-- What a calm move does to the lock: it creates the file, keeps it, or releases it.
abbrev Effect : Files → Pc → Files → Pc → Type 0
Effect m p m' p' =
    ((m.lock ≡ none) × (m'.lock ≢ none))
    ⊎ ((m'.lock ≡ m.lock) × (IsOwner p' → IsOwner p))
    ⊎ (IsOwner p × (¬ IsOwner p'))

effect :
    {alive : ℤ → Bool} {n : ℕ} {m m' : Files} {p p' : Pc}
    → Move alive n m p m' p'
    → IsCalm p
    → IsCalm p'
    → Effect m p m' p'
effect begin c c' = inr (inl (refl, λ o. o))
effect (create e) c c' = inl (e, λ x. cc)
effect cannot_open c c' = inr (inl (refl, λ o. absurd o))
effect (exists e) c c' = inr (inl (refl, λ o. absurd o))
effect write c c' = inr (inl (refl, λ o. tt))
effect read c c' = inr (inl (refl, λ o. absurd o))
effect unreadable c c' = inr (inl (refl, λ o. absurd o))
effect (held e) c c' = inr (inl (refl, λ o. absurd o))
effect (stale e) c c' = absurd c'
effect (removed e) c c' = absurd c
effect (removed_last e) c c' = absurd c
effect cannot_remove c c' = absurd c
effect release c c' = inr (inr (tt, λ o. o))
effect cannot_release c c' = inr (inl (refl, λ o. absurd o))

module _ (t : Processes) (n : ℕ) (m : Files) (p' : Pc) where
  -- A fact on a process behind the move
  pc_cases :
      (P : Pc → Type 0) (k : ℕ) → P (update t.pc n p' k) → ((n ≡ k) × P p') ⊎ ((n ≢ k) × P (t.pc k))
  pc_cases P k h = elim (Bool-cases (n == k)) [
    | inl y ↦
        let same : n ≡ k = ground arith in
        inl
          (same, subst P (update_self t.pc n p') (subst (λ x. P (update t.pc n p' x)) (sym same) h))
    | inr x ↦
        let other : n ≢ k = ground arith in inr (other, subst P (update_other t.pc n k p' other) h)
  ]

  update-IsCalm : IsSole t → IsCalm p' → (k : ℕ) → IsCalm (update t.pc n p' k)
  unfolding update
  update-IsCalm sole c k = elim (Bool-cases (n == k)) [
    | inl y ↦ rw y c
    | inr x ↦ rw x (sole.calm k)
  ]

  moved-IsSole : IsSole t → IsCalm p' → Effect t.files (t.pc n) m p' → IsSole (moved t n m p')
  moved-IsSole sole c (inl (free, taken)) = record {
    locked = λ k o. taken;
    sole = λ k l ok ol. sym (mover k ok) ∙ mover l ol;
    calm = update-IsCalm sole c;
  }
    where
      mover : (k : ℕ) → IsOwner (update t.pc n p' k) → n ≡ k
      mover k o = elim (pc_cases IsOwner k o) [
        | inl (same, own) ↦ same
        | inr (other, own) ↦ absurd (sole.locked k own free)
      ]
  moved-IsSole sole c (inr (inl (same, own))) = record {
    locked = λ k o. subst (λ l. l ≢ none) (sym same) (sole.locked k (before k o));
    sole = λ k l ok ol. sole.sole k l (before k ok) (before l ol);
    calm = update-IsCalm sole c;
  }
    where
      before : (k : ℕ) → IsOwner (update t.pc n p' k) → IsOwner (t.pc k)
      before k o = elim (pc_cases IsOwner k o) [
        | inl (e, h) ↦ subst (λ x. IsOwner (t.pc x)) e (own h)
        | inr (e, h) ↦ h
      ]
  moved-IsSole sole c (inr (inr (own, gone))) = record {
    locked = λ k o. absurd (nobody k o);
    sole = λ k l ok ol. absurd (nobody k ok);
    calm = update-IsCalm sole c;
  }
    where
      nobody : (k : ℕ) → ¬ IsOwner (update t.pc n p' k)
      nobody k o = elim (pc_cases IsOwner k o) [
        | inl (e, h) ↦ gone h
        | inr (e, h) ↦ e (sole.sole n k own h)
      ]

-- From every state in which no process has begun, whatever the lock file is, and in every order of
-- the calls in which no process takes the lock file for stale, at most one process at a time owns the
-- lock, from the creation of the file on to the release, and there is a file as long as it does.
pub CalmSchedule-IsSole :
    (alive : ℤ → Bool) (s t : Processes)
    → ((k : ℕ) → s.pc k ≡ idle)
    → CalmSchedule alive s t
    → IsSole t
CalmSchedule-IsSole alive s t h start = record {
  locked = λ k o. absurd (subst IsOwner (h k) o);
  sole = λ k l ok ol. absurd (subst IsOwner (h k) ok);
  calm = λ k. subst IsCalm (sym (h k)) tt;
}
CalmSchedule-IsSole alive s t h (call {t = u} {p} {p'} {m} run n e mv c) =
    let sole = CalmSchedule-IsSole alive s u h run in
    moved-IsSole u n m p' sole c
      (effect (subst (λ x. Move alive n u.files x m p') (sym e) mv) (sole.calm n) c)
