-- ===== src/Vz/Running.antt =====
-- What stands behind a run on Apple's framework that ends well.
use dvm.Base.{
  codes, is_empty, pos, leb_int, All, All-append, Bool, true, false, not, ◌||◌, Bool-cases, inl,
  inr, Option, none, some, List, [], ◌∷◌, if◌then◌else◌, Result, ok, err,
}
use dvm.Base.{◌≡◌, ◌⊎◌, refl, sym, ◌∙◌}
use dvm.Base.FilePath.{join_path}
use dvm.Cache.Disk.{Disk, mkdir_all}
use dvm.Vz.Overlay.{OverlayError, ensure_overlay}
use dvm.Vz.Supervise.{Ended, stopped, forced, error_state, wait_for_end}
use dvm.Vz.Run.{
  Options, Site, Call, VzError, bad_size, no_logs, Outcome, calls_before, calls_behind,
  first_failure, boot_loader, configuration, root_disk, root_device, seed_disk, seed_device,
  random_bytes, mac_address, nat_attachment, network_device, serial_attachment, serial_port,
  entropy_device, validation, machine, machine_start, ended, boot, supervised, configured,
  open_serial, with_overlay, drop_disk, disk_image, all_events, run,
}

-- Every call of the list succeeds.
abbrev pub AllSucceed : (Call → Bool) → List Call → Type 0
AllSucceed succeeds = All (λ c. succeeds c ≡ true)

first_failure-none :
    (succeeds : Call → Bool) (calls : List Call)
    → first_failure succeeds calls ≡ none
    → AllSucceed succeeds calls
unfolding first_failure
first_failure-none succeeds [] e = tt
first_failure-none succeeds (c ∷ calls) e = elim (Bool-cases (succeeds c)) [
  | inl y ↦ (y, first_failure-none succeeds calls (rw (first_failure, y) at e))
  | inr n ↦ absurd (cc (rw (first_failure, n) at e))
]

-- The machine stopped, or was stopped at the deadline.
abbrev pub IsStopped : Option Ended → Type 0
IsStopped r = (r ≡ some stopped) ⊎ (r ≡ some forced)

ended-IsStopped : (r : Option Ended) → ended r ≡ ok tt → IsStopped r
unfolding ended
ended-IsStopped none e = absurd (cc e)
ended-IsStopped (some stopped) e = inl refl
ended-IsStopped (some forced) e = inr refl
ended-IsStopped (some error_state) e = absurd (cc e)

-- What a run that ended well has done behind the disk
abbrev pub IsRun : Site → Options → Type 0
IsRun s o =
    AllSucceed s.succeeds (
      boot_loader ∷ configuration ∷ root_disk ∷ root_device ∷ random_bytes ∷ mac_address
      ∷ nat_attachment ∷ network_device ∷ serial_attachment ∷ serial_port ∷ entropy_device
      ∷ validation ∷ machine ∷ machine_start ∷ [])
    × ((is_empty o.seed_path ≡ true) ⊎ AllSucceed s.succeeds (seed_disk ∷ seed_device ∷ []))
    × IsStopped (wait_for_end (all_events s))

calls-made :
    (s : Site) (o : Options)
    → AllSucceed s.succeeds (calls_before o.seed_path)
    → AllSucceed s.succeeds calls_behind
    → IsStopped (wait_for_end (all_events s))
    → IsRun s o
unfolding calls_before
calls-made s o before behind over = elim (Bool-cases (is_empty o.seed_path)) [
  | inl y ↦ (
    All-append (λ c. s.succeeds c ≡ true)
        (boot_loader ∷ configuration ∷ root_disk ∷ root_device ∷ random_bytes ∷ mac_address
          ∷ nat_attachment ∷ network_device ∷ [])
        calls_behind (rw y at before) behind,
    inl y,
    over,
  )
  | inr x ↦
      let (h, (i, (j, (k, (disk, (device, rest)))))) = rw x at before in
      (
        (
          h,
          (
            i,
            (
              j,
              (
                k,
                All-append (λ c. s.succeeds c ≡ true)
                    (random_bytes ∷ mac_address ∷ nat_attachment ∷ network_device ∷ []) calls_behind
                    rest behind,
              ),
            ),
          ),
        ),
        inr (disk, (device, tt)),
        over,
      )
]

supervised-ok :
    (s : Site) (r : Option Call) (d : Disk)
    → (supervised s r d).0 ≡ ok tt
    → (r ≡ none) × IsStopped (wait_for_end (all_events s))
supervised-ok s (some c) d e = absurd (cc e)
supervised-ok s none d e = (refl, ended-IsStopped (wait_for_end (all_events s)) e)

boot-ok :
    (s : Site) (x : Result VzError (Unit {0}) × Disk)
    → (boot s x).0 ≡ ok tt
    → AllSucceed s.succeeds calls_behind × IsStopped (wait_for_end (all_events s))
unfolding boot
boot-ok s (err x, d) e = absurd (cc e)
boot-ok s (ok u, d) e =
    let (none_fails, over) = supervised-ok s (first_failure s.succeeds calls_behind) d e in
    (first_failure-none s.succeeds calls_behind none_fails, over)

configured-ok :
    (s : Site) (o : Options) (r : Option Call) (d : Disk)
    → (configured s o r d).0 ≡ ok tt
    → (r ≡ none) × AllSucceed s.succeeds calls_behind × IsStopped (wait_for_end (all_events s))
configured-ok s o (some c) d e = absurd (cc e)
configured-ok s o none d e =
    let (behind, over) = boot-ok s (open_serial o.console s.serial_ok o.state_dir d) e in
    (refl, behind, over)

with_overlay-ok :
    (s : Site) (o : Options) (x : Result OverlayError (Unit {0}) × Disk)
    → (with_overlay s o x).0 ≡ ok tt
    → (x.0 ≡ ok tt) × IsRun s o
unfolding with_overlay
with_overlay-ok s o (err x, d) e = absurd (cc e)
with_overlay-ok s o (ok u, d) e =
    let calls = calls_before o.seed_path in
    let (none_fails, behind, over) = configured-ok s o (first_failure s.succeeds calls) d e in
    (refl, calls-made s o (first_failure-none s.succeeds calls none_fails) behind over)

-- The disk of the machine, once the directory of the logs is made
abbrev pub cloned : Site → Options → Disk → Result OverlayError (Unit {0}) × Disk
cloned s o d =
    ensure_overlay s.clone_io s.base (disk_image o.state_dir) o.persist
      (mkdir_all (join_path (o.state_dir ∷ codes "logs" ∷ [])) d)

dropped_result : (s : Site) (o : Options) (x : Outcome) → (drop_disk s o x).0 ≡ x.0
unfolding drop_disk
dropped_result s o (r, d) = refl

checks-ok :
    (a b logs : Bool) (d : Disk) (x : Outcome)
    → (if a || b then (err bad_size, d) else if not logs then (err no_logs, d) else x).0 ≡ ok tt
    → (a ≡ false) × (b ≡ false) × (logs ≡ true) × (x.0 ≡ ok tt)
checks-ok true b logs d x e = absurd (cc e)
checks-ok false true logs d x e = absurd (cc e)
checks-ok false false false d x e = absurd (cc e)
checks-ok false false true d x e = (refl, refl, refl, e)

-- A run on Apple's framework ends well only with memory and processors, a directory for the logs, a
-- disk that could be cloned, with success of each of the fourteen calls of the framework and, if there
-- is a seed, of the two for it, and a machine that stopped by itself or at the deadline.
pub run-IsRun :
    (s : Site) (o : Options) (d : Disk)
    → (run s o d).0 ≡ ok tt
    → (leb_int o.memory_mb (pos 0) ≡ false)
      × (leb_int o.cpus (pos 0) ≡ false)
      × (s.logs_ok ≡ true)
      × ((cloned s o d).0 ≡ ok tt)
      × IsRun s o
unfolding run
run-IsRun s o d e =
    let (memory, cpus, logs, went) = checks-ok _ _ s.logs_ok d (drop_disk s o _) e in
    let (disk, is_run) = with_overlay-ok s o (cloned s o d) (sym (dropped_result s o _) ∙ went) in
    (memory, cpus, logs, disk, is_run)
