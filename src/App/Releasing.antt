-- ===== src/App/Releasing.antt =====
-- The lock of a machine around a start.
use dvm.App.Flow.{vz_unsupported, missing_references}
use dvm.App.StartVz.{has_vz_references, VzWorld, vz_supported, vz_boot_locked, start_vz, start}
use dvm.App.Engine.{resolve_engine}
use dvm.Base.{codes, ◌≟◌}
use dvm.Base.{List}
use dvm.Base.{Bool, true, false, none, some, is_empty, inl, inr, Option, Bool-cases, Option-cases}
use dvm.Qemu.{Archive, Spec}
use dvm.Component.{Component, abs_path}
use dvm.App.Create.{App}
use dvm.App.Start.{stat_ok}
use dvm.Base.{Bytes, ≟_refl, true, none, Result, ok, err}
use dvm.Base.{◌≡◌, refl}
use dvm.Cache.Disk.{Disk, remove}
use dvm.Vm.{lock_path}
use dvm.App.Flow.{
  FlowError, port_taken, no_seed, run_failed, seed_failed, vz_failed, no_qemu, no_cache, unresolved,
  locked, Flow, follow, require, ◌>>=◌, wrapped,
}
use dvm.App.Start.{
  World, releasing, boot_locked, start_qemu, new_state, state_dir, absolute, find_binary, stat_ok,
  qemu_dir, qemu_paths, resolve_named,
}

-- The errors that come behind the lock.
abbrev pub Behind : FlowError → Type 0
Behind (port_taken p) = Unit
Behind (no_seed e) = Unit
Behind (run_failed e) = Unit
Behind (seed_failed e) = Unit
Behind (vz_failed e) = Unit
Behind e = ⊥

-- The start got the lock.
abbrev pub HadLock : Result FlowError (Unit {0}) → Type 0
HadLock (ok u) = Unit
HadLock (err e) = Behind e

-- A step before the lock, which has other errors
abbrev IsBefore : {A : Type 0} → Result FlowError A → Type 0
IsBefore (ok a) = Unit
IsBefore (err e) = ¬ Behind e

-- Where the lock was held, nothing is at its path.
abbrev Frees : Bytes → Flow (Unit {0}) → Type 0
Frees p m = (d : Disk) → HadLock (m d).0 → (m d).1 p ≡ none

follow-Frees :
    {A : Type 0} (p : Bytes) (r : Result FlowError A × Disk) (f : A → Flow (Unit {0}))
    → IsBefore r.0
    → ((a : A) → Frees p (f a))
    → HadLock (follow r f).0
    → (follow r f).1 p ≡ none
follow-Frees p (ok a, d) f before after h = after a d h
follow-Frees p (err e, d) f before after h = absurd (before h)

>>=-Frees :
    {A : Type 0} (p : Bytes) (m : Flow A) (f : A → Flow (Unit {0}))
    → ((d : Disk) → IsBefore (m d).0)
    → ((a : A) → Frees p (f a))
    → Frees p (m >>= f)
>>=-Frees p m f before after d h = follow-Frees p (m d) f (before d) after h

removed_gone : (p : Bytes) (d : Disk) → remove p d p ≡ none
unfolding remove
removed_gone p d = rw (≟_refl p) refl

releasing_gone :
    (w : World) (dir : Bytes) (x : Result FlowError (Unit {0}) × Disk)
    → w.lock_removable ≡ true
    → (releasing w dir x).1 (lock_path dir) ≡ none
unfolding releasing
releasing_gone w dir (r, d) can = rw can (removed_gone (lock_path dir) d)

wrapped-IsBefore :
    {E A : Type 0} (wrap : E → FlowError) (x : Result E A × Disk)
    → ((e : E) → ¬ Behind (wrap e))
    → IsBefore (wrapped wrap x).0
wrapped-IsBefore wrap (ok a, d) h = tt
wrapped-IsBefore wrap (err e, d) h = h e

follow-IsBefore :
    {A B : Type 0} (r : Result FlowError A × Disk) (f : A → Flow B)
    → IsBefore r.0
    → ((a : A) (d : Disk) → IsBefore (f a d).0)
    → IsBefore (follow r f).0
follow-IsBefore (ok a, d) f before after = after a d
follow-IsBefore (err e, d) f before after = before

require-IsBefore : (b : Bool) (d : Disk) (e : FlowError) → ¬ Behind e → IsBefore (require b e d).0
require-IsBefore true d e h = tt
require-IsBefore false d e h = h

new_state-Frees :
    (p : Bytes) (can : Bool) (dir : Bytes) (f : Bytes → Flow (Unit {0}))
    → Frees p (f dir)
    → Frees p (new_state can dir >>= f)
unfolding new_state
new_state-Frees p can dir f after d = elim (Bool-cases (is_empty dir)) [
  | inl y ↦ rw y (λ h. absurd h)
  | inr n ↦ elim (Bool-cases can) [
    | inl y ↦ rw (n, y) (after _)
    | inr m ↦ rw (n, m) (λ h. absurd h)
  ]
]

absolute-IsBefore : (w : World) (dir : Bytes) (d : Disk) → IsBefore (absolute w dir d).0
unfolding absolute abs_path dvm.Component.file_abs dvm.Base.has_prefix
absolute-IsBefore w dir d = elim (Option-cases (abs_path w.host dir)) [
  | inl e ↦ rw e (λ h. h)
  | inr (abs, e) ↦ rw e tt
]

find_binary-IsBefore : (w : World) (p : Bytes) (d : Disk) → IsBefore (find_binary w p d).0
unfolding find_binary
find_binary-IsBefore w p d = elim (Bool-cases (stat_ok w d p)) [
  | inl y ↦ rw y tt
  | inr n ↦ rw n (λ h. h)
]

module _ (sha : Bytes → Bytes) (open_archive : Bytes → Option Archive) where
  qemu_dir-IsBefore :
      (w : World) (a : App) (d : Disk) → IsBefore (qemu_dir sha open_archive w a d).0
  unfolding qemu_dir
  qemu_dir-IsBefore w a d = elim (Bool-cases (is_empty a.cfg.components.qemu_dir)) [
    | inl y ↦ rw y (wrapped-IsBefore no_qemu _ (λ e h. h))
    | inr n ↦ rw n tt
  ]

  qemu_paths-IsBefore :
      (w : World) (a : App) (d : Disk) → IsBefore (qemu_paths sha open_archive w a d).0
  unfolding qemu_paths
  qemu_paths-IsBefore w a d =
      follow-IsBefore (qemu_dir sha open_archive w a d) _ (qemu_dir-IsBefore w a d) (λ dir d1.
        follow-IsBefore (absolute w dir d1) _ (absolute-IsBefore w dir d1) (λ abs d2.
          follow-IsBefore _ _ (find_binary-IsBefore w _ d2)
            (λ bin d3. follow-IsBefore _ _ (find_binary-IsBefore w _ d3) (λ img d4. tt))))

  resolve_named-IsBefore :
      (w : World) (a : App) (root name ref : Bytes) (d : Disk)
      → IsBefore (resolve_named sha open_archive w a root name ref d).0
  unfolding resolve_named
  resolve_named-IsBefore w a root name ref d = wrapped-IsBefore unresolved _ (λ e h. h)

  module _ (encode : Bytes → List (Bytes × Bytes) → Bytes) (blank : Bytes)
      (qemu_img : Bytes → Bytes → Bytes → Bytes → Disk → Bool × Disk) where
    boot_locked-Frees :
        (w : World) (a : App) (bins : Bytes × Bytes) (dir : Bytes) (spec : Spec)
        (rootfs : Component)
        → w.lock_removable ≡ true
        → Frees
            (lock_path dir)
            (boot_locked sha open_archive encode blank qemu_img w a bins dir spec rootfs)
    unfolding boot_locked
    boot_locked-Frees w a bins dir spec rootfs can d h = releasing_gone w dir _ can

    start_qemu-Frees :
        (w : World) (a : App)
        → w.lock_removable ≡ true
        → Frees (lock_path (state_dir a)) (start_qemu sha open_archive encode blank qemu_img w a)
    unfolding start_qemu
    start_qemu-Frees w a can =
        let p = lock_path (state_dir a) in
        >>=-Frees p _ _ (λ d. require-IsBefore _ d _ (λ h. h))
          (λ u. >>=-Frees p _ _ (qemu_paths-IsBefore w a) (λ bins.
            >>=-Frees p _ _ (λ d. wrapped-IsBefore no_cache _ (λ e h. h))
              (λ root. >>=-Frees p _ _ (resolve_named-IsBefore w a root _ _) (λ kernel.
                >>=-Frees p _ _ (resolve_named-IsBefore w a root _ _) (λ initrd.
                  >>=-Frees p _ _ (resolve_named-IsBefore w a root _ _) (λ rootfs.
                    new_state-Frees p w.state_ok (state_dir a) _ (
                      >>=-Frees p _ _ (λ d. wrapped-IsBefore locked _ (λ e h. h))
                        (λ v. boot_locked-Frees w a bins (state_dir a) _ rootfs can))))))))

    vz_boot_locked-Frees :
        (v : VzWorld) (a : App) (dir : Bytes) (kernel initrd rootfs : Component)
        → v.world.lock_removable ≡ true
        → Frees
            (lock_path dir)
            (vz_boot_locked sha open_archive encode blank qemu_img v a dir kernel initrd rootfs)
    unfolding vz_boot_locked
    vz_boot_locked-Frees v a dir kernel initrd rootfs can d h = releasing_gone v.world dir _ can

    start_vz-Frees :
        (v : VzWorld) (a : App)
        → v.world.lock_removable ≡ true
        → Frees (lock_path (state_dir a)) (start_vz sha open_archive encode blank qemu_img v a)
    unfolding start_vz
    start_vz-Frees v a can =
        let p = lock_path (state_dir a) in
        let w = v.world in
        >>=-Frees p (require (vz_supported v) vz_unsupported) _
          (λ d. require-IsBefore (vz_supported v) d vz_unsupported (λ h. h))
          (λ u.
            >>=-Frees p (require (has_vz_references a.cfg) missing_references) _
              (λ d. require-IsBefore (has_vz_references a.cfg) d missing_references (λ h. h))
              (λ u'.
                >>=-Frees p _ _ (λ d. wrapped-IsBefore no_cache _ (λ e h. h))
                  (λ root. >>=-Frees p _ _ (resolve_named-IsBefore w a root _ _) (λ kernel.
                    >>=-Frees p _ _ (resolve_named-IsBefore w a root _ _) (λ initrd.
                      >>=-Frees p _ _ (resolve_named-IsBefore w a root _ _) (λ rootfs.
                        new_state-Frees p w.state_ok (state_dir a) _ (
                          >>=-Frees p _ _ (λ d. wrapped-IsBefore locked _ (λ e h. h))
                            (λ x.
                              vz_boot_locked-Frees v a (state_dir a) kernel initrd rootfs
                                can))))))))

    -- Where the lock can be removed, no start that got it leaves it: after a machine that ran, and
    -- after a taken port, a seed that fails or a run that fails, with either engine, nothing stands
    -- at the lock's path.
    pub start-lock_path :
        (v : VzWorld) (a : App) (d : Disk)
        → v.world.lock_removable ≡ true
        → HadLock (start sha open_archive encode blank qemu_img v a d).0
        → (start sha open_archive encode blank qemu_img v a d).1 (lock_path (state_dir a)) ≡ none
    unfolding start
    start-lock_path v a d can = elim (Bool-cases (resolve_engine (vz_supported v) a ≟ codes "vz")) [
      | inl y ↦ rw (start, y) (start_vz-Frees v a can d)
      | inr n ↦ rw (start, n) (start_qemu-Frees v.world a can d)
    ]
