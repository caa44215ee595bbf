-- ===== src/Vm/Start.antt =====
-- startQEMU and startWithAccelFallback of internal/vm/lifecycle.go. What becomes of a process with
-- some arguments within the grace period is a parameter.
use dvm.Base.{if◌then◌else◌, Bool, not, Bytes, Option, none, some, List, [], ◌∷◌, Result, ok, err}
use dvm.Qemu.{Spec, BuildError, build_args}

pub data Launch : Type 0 where
  not_started : Launch
  exited : Launch
  running : Launch

-- What becomes of one start: whether the log of QEMU is made, whether the process is started, and
-- whether it ends within the grace period
pub record Process : Type 0 where
  pub has_log : Bool
  pub is_started : Bool
  pub exits_early : Bool

-- `startQEMU`, and the grace period behind it
unfoldable pub launch_of : Process → Launch
launch_of p =
    if not p.has_log
    then not_started
    else if not p.is_started
    then not_started
    else if p.exits_early
    then exited
    else running

pub data StartError : Type 0 where
  bad_spec : BuildError → StartError
  start_failed : Bytes → StartError
  exited_early : Bytes → StartError
  no_candidates : StartError

abbrev pub or_no_candidates : Option StartError → StartError
or_no_candidates none = no_candidates
or_no_candidates (some e) = e

-- The loop over the candidates; the third argument is `lastErr`. An exit under the last candidate
-- ends the loop, as there is none left.
unfoldable pub try_accels :
    (List Bytes → Launch) → Spec → Option StartError → List Bytes → Result StartError Bytes
try_accels start spec last [] = err (or_no_candidates last)
try_accels start spec last (accel ∷ rest) =
    let after_start = try_accels start spec (some (start_failed accel)) rest in
    let after_exit = try_accels start spec (some (exited_early accel)) rest in
    elim (build_args (record spec { accel = accel })) [
      | err e ↦ err (bad_spec e)
      | ok args ↦ elim (start args) [
        | not_started ↦ after_start
        | exited ↦ after_exit
        | running ↦ ok accel
      ]
    ]

-- The candidates, or the specification's accelerator where there are none.
unfoldable pub candidates_or : List Bytes → Spec → List Bytes
candidates_or [] spec = spec.accel ∷ []
candidates_or (a ∷ rest) spec = a ∷ rest

-- `startWithAccelFallback`: the accelerator of the process that runs
unfoldable pub start_with_fallback :
    (List Bytes → Launch) → Spec → List Bytes → Result StartError Bytes
start_with_fallback start spec cands = try_accels start spec none (candidates_or cands spec)
