-- ===== src/App/Cleaning.antt =====
-- What `Clean` removes.
use dvm.Base.{Bytes, Bool, true, false, none, if◌then◌else◌, ◌||◌, ◌&&◌}
use dvm.Base.{◌≡◌, refl, Bool-cases, inl, inr}
use dvm.Cache.Disk.{Disk, is_below, remove_all}
use dvm.App.Create.{App}
use dvm.App.Start.{oci_root, state_dir}
use dvm.App.Manage.{app_clean}

-- What is to go
abbrev pub goes : Bool → App → Bytes → Bool
goes with_state a q = is_below (oci_root a) q || (with_state && is_below (state_dir a) q)

-- A clean that succeeds removes what is at or below the component cache, and with the flag for the
-- state what is at or below the directory of the machine, and leaves all else as it was.
pub app_clean_lem :
    (can : Bool × Bool) (with_state : Bool) (a : App) (d : Disk) (q : Bytes)
    → (app_clean can with_state a d).0 ≡ true
    → (app_clean can with_state a d).1 q ≡ (if goes with_state a q then none else d q)
unfolding app_clean remove_all
app_clean_lem (false, s) w a d q e = absurd (cc e)
app_clean_lem (true, s) false a d q e = elim (Bool-cases (is_below (oci_root a) q)) [
  | inl y ↦ rw y refl
  | inr n ↦ rw n refl
]
app_clean_lem (true, false) true a d q e = absurd (cc e)
app_clean_lem (true, true) true a d q e = elim (Bool-cases (is_below (oci_root a) q)) [
  | inl y ↦ elim (Bool-cases (is_below (state_dir a) q)) [
    | inl z ↦ rw (y, z) refl
    | inr n ↦ rw (y, n) refl
  ]
  | inr n ↦ elim (Bool-cases (is_below (state_dir a) q)) [
    | inl z ↦ rw (n, z) refl
    | inr m ↦ rw (n, m) refl
  ]
]
