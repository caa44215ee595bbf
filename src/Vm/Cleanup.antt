-- ===== src/Vm/Cleanup.antt =====
-- What a run leaves in the state directory.
use dvm.Base.{
  Bytes, ◌≟◌, ≟_refl, Bool, true, false, Option, none, some, List, if◌then◌else◌, Result, ok, err,
}
use dvm.Base.{◌≡◌, refl, Bool-cases, inl, inr}
use dvm.Qemu.{ControlAddr}
use dvm.Cache.Disk.{Disk, remove}
use dvm.Vm.State.{overlay_path, pid_path}
use dvm.Vm.Overlay.{DiskError}
use dvm.Vm.Start.{StartError}
use dvm.Vm.Seed.{SeedError}
use dvm.Vm.Run.{
  RunError, disk_failed, supervised, Options, Site, RunOutcome, after_start, launched,
  with_channels, with_seed, drop_overlay, with_disk, prepare_seed, run, try_remove,
}

-- QEMU was started.
abbrev pub Ran : Result RunError (Unit {0}) → Type 0
Ran (ok u) = Unit
Ran (err (supervised e)) = Unit
Ran (err e) = ⊥

-- The run got as far as to have a disk.
abbrev pub HadDisk : Result RunError (Unit {0}) → Type 0
HadDisk (err (disk_failed e)) = ⊥
HadDisk r = Unit

remove_gone : (p : Bytes) (d : Disk) → remove p d p ≡ none
unfolding remove
remove_gone p d = rw (≟_refl p) refl

remove_keeps_gone : (p q : Bytes) (d : Disk) → d q ≡ none → remove p d q ≡ none
unfolding remove
remove_keeps_gone p q d e = elim (Bool-cases (q ≟ p)) [ inl y ↦ rw (y) refl | inr n ↦ rw (n) e ]

after_start_gone :
    (s : Site) (o : Options) (d : Disk)
    → s.pid_removable ≡ true
    → (after_start s o d).1 (pid_path o.dir) ≡ none
unfolding after_start
after_start_gone s o d can = rw can (remove_gone (pid_path o.dir) _)

launched_gone :
    (s : Site) (o : Options) (r : Result StartError Bytes) (d : Disk)
    → s.pid_removable ≡ true
    → Ran (launched s o r d).0
    → (launched s o r d).1 (pid_path o.dir) ≡ none
unfolding launched
launched_gone s o (err e) d can h = absurd h
launched_gone s o (ok accel) d can h = after_start_gone s o d can

with_channels_gone :
    (s : Site) (o : Options) (seed : Bytes) (c : Option (ControlAddr × ControlAddr)) (d : Disk)
    → s.pid_removable ≡ true
    → Ran (with_channels s o seed c d).0
    → (with_channels s o seed c d).1 (pid_path o.dir) ≡ none
unfolding with_channels
with_channels_gone s o seed none d can h = absurd h
with_channels_gone s o seed (some (qmp, serial)) d can h = launched_gone s o _ _ can h

with_seed_gone :
    (s : Site) (o : Options) (r : Result SeedError Bytes × Disk)
    → s.pid_removable ≡ true
    → Ran (with_seed s o r).0
    → (with_seed s o r).1 (pid_path o.dir) ≡ none
unfolding with_seed
with_seed_gone s o (err e, d) can h = absurd h
with_seed_gone s o (ok seed, d) can h = with_channels_gone s o seed _ d can h

dropped_keeps_gone :
    (persist can : Bool) (p q : Bytes) (d : Disk)
    → d q ≡ none
    → (if persist then d else try_remove can p d) q ≡ none
dropped_keeps_gone true can p q d e = e
dropped_keeps_gone false true p q d e = remove_keeps_gone p q d e
dropped_keeps_gone false false p q d e = e

dropped_gone :
    (persist can : Bool) (p : Bytes) (d : Disk)
    → persist ≡ false
    → can ≡ true
    → (if persist then d else try_remove can p d) p ≡ none
dropped_gone persist can p d np c = rw (np, c) (remove_gone p d)

drop_overlay-pid_path :
    (s : Site) (o : Options) (x : RunOutcome)
    → (Ran x.0 → x.1 (pid_path o.dir) ≡ none)
    → Ran (drop_overlay s o x).0
    → (drop_overlay s o x).1 (pid_path o.dir) ≡ none
unfolding drop_overlay
drop_overlay-pid_path s o (r, d) before h =
    dropped_keeps_gone o.persist s.overlay_removable_after (overlay_path o.dir) (pid_path o.dir) d
      (before h)

drop_overlay-overlay_path :
    (s : Site) (o : Options) (x : RunOutcome)
    → o.persist ≡ false
    → s.overlay_removable_after ≡ true
    → (drop_overlay s o x).1 (overlay_path o.dir) ≡ none
unfolding drop_overlay
drop_overlay-overlay_path s o (r, d) np can =
    dropped_gone o.persist s.overlay_removable_after (overlay_path o.dir) d np can

module _ (sha : Bytes → Bytes) (encode : Bytes → List (Bytes × Bytes) → Bytes) (blank : Bytes)
    (qemu_img : Bytes → Bytes → Bytes → Bytes → Disk → Bool × Disk) where
  with_disk-pid_path :
      (s : Site) (o : Options) (r : Result DiskError (Unit {0}) × Disk)
      → s.pid_removable ≡ true
      → Ran (with_disk sha encode blank qemu_img s o r).0
      → (with_disk sha encode blank qemu_img s o r).1 (pid_path o.dir) ≡ none
  unfolding with_disk
  with_disk-pid_path s o (err e, d) can h = absurd h
  with_disk-pid_path s o (ok u, d) can h =
      let x = with_seed s o (prepare_seed sha encode blank s o d) in
      drop_overlay-pid_path s o x (λ r. with_seed_gone s o _ can r) h

  with_disk-overlay_path :
      (s : Site) (o : Options) (r : Result DiskError (Unit {0}) × Disk)
      → o.persist ≡ false
      → s.overlay_removable_after ≡ true
      → HadDisk (with_disk sha encode blank qemu_img s o r).0
      → (with_disk sha encode blank qemu_img s o r).1 (overlay_path o.dir) ≡ none
  unfolding with_disk
  with_disk-overlay_path s o (err e, d) np can h = absurd h
  with_disk-overlay_path s o (ok u, d) np can h =
      drop_overlay-overlay_path s o (with_seed s o (prepare_seed sha encode blank s o d)) np can

  -- Where the pid file can be removed, none is left after a run in which QEMU was started, however
  -- the run ended.
  pub run-pid_path :
      (s : Site) (o : Options) (d : Disk)
      → s.pid_removable ≡ true
      → Ran (run sha encode blank qemu_img s o d).0
      → (run sha encode blank qemu_img s o d).1 (pid_path o.dir) ≡ none
  unfolding run
  run-pid_path s o d can h = with_disk-pid_path s o _ can h

  -- An overlay that is not to persist, and that can be removed, is gone after each run whose disk was
  -- prepared: after a failure of the seed, of the control channels or of the start of QEMU as well as
  -- after a machine that ran.
  pub run-overlay_path :
      (s : Site) (o : Options) (d : Disk)
      → o.persist ≡ false
      → s.overlay_removable_after ≡ true
      → HadDisk (run sha encode blank qemu_img s o d).0
      → (run sha encode blank qemu_img s o d).1 (overlay_path o.dir) ≡ none
  unfolding run
  run-overlay_path s o d np can h = with_disk-overlay_path s o _ np can h
