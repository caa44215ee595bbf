-- ===== src/Cache/Outcomes.antt =====
-- The ways out of `PutStream`.
use dvm.Base.{Bool, false, not, if◌then◌else◌, Bytes, ◌≟◌, ≟_iff, ≟_refl, true, Option, none, some}
use dvm.Base.{Result, ok, err, ◌≡◌, ◌≢◌, ◌⊎◌, inl, inr, refl, subst, sym}
use dvm.Base.{Bool-cases}
use dvm.Cache.Disk.{file, Disk}
use dvm.Cache.Disk.{write_file, is_file_entry, mkdir_all, SameFiles, mkdir_all-SameFiles}
use dvm.Cache.Store.{CacheError, io_error, unsupported_algorithm, sha256, blob_dir, blob_file}
use dvm.Cache.Store.{Io, drop_temp, create_temp, put_blob}
use dvm.Cache.Commits.{
  IsNewTemp, SameFiles-refl, SameElsewhere, SameFiles-SameElsewhere, dropped_elsewhere,
  dropped-SameFiles, moved, commit-cases,
}

module _ (sha : Bytes → Bytes) (root : Bytes) where
  abbrev pub place : Bytes → Bytes
  place want = blob_file root sha256 want

  -- After an error the files are what they were, but for a temporary file that could not be removed.
  abbrev pub IsKept : Io → Disk → Disk → Type 0
  IsKept io d d' = SameElsewhere io.temp_name d d' × (io.remove_ok ≡ true → SameFiles d d')

  -- The three ways out of `PutStream`: an error, a blob that was there, and a new blob.
  abbrev pub Outcome : Io → Bytes → Bytes → Disk → Result CacheError Bytes × Disk → Type 0
  Outcome io want content d (r, d') =
      ((e : CacheError) × (r ≡ err e) × IsKept io d d')
      ⊎ (r ≡ ok (place want)) × (d' ≡ d) × (is_file_entry (d (place want)) ≡ true)
      ⊎ (r ≡ ok (place want))
        × (sha content ≡ want)
        × ((tmp : Bytes) × (m : Disk) × SameFiles d m
            × IsNewTemp sha root (some tmp) d
            × (d' ≡ moved tmp (place want) content m))

  same-IsKept : (io : Io) (d m : Disk) → SameFiles d m → IsKept io d m
  same-IsKept io d m same = (SameFiles-SameElsewhere io.temp_name d m same, λ y. same)

  SameFiles-new :
      (tmp : Bytes) (d m : Disk)
      → SameFiles d m
      → ((c : Bytes) → d tmp ≢ some (file c))
      → (c : Bytes) → m tmp ≢ some (file c)
  SameFiles-new tmp d m same new c e = new c ((same tmp c).0 e)

  create_temp-Outcome :
      (io : Io) (temp : Option Bytes) (want content : Bytes) (d m : Disk)
      → SameFiles d m
      → io.temp_name ≡ temp
      → IsNewTemp sha root temp d
      → Outcome io want content d (create_temp sha io temp (place want) want content m)
  unfolding create_temp
  create_temp-Outcome io none want content d m same named new =
      inl (io_error, refl, same-IsKept io d m same)
  create_temp-Outcome io (some tmp) want content d m same named new =
      elim (commit-cases sha io tmp (place want) want content m) [
        | inl (e, h) ↦ rw e (inr (inr (refl, h, (tmp, m, same, new, refl))))
        | inr (x, e) ↦ rw e (
            inl (
              x,
              refl,
              (
                subst (λ t. SameElsewhere t d (drop_temp io tmp (write_file tmp content m)))
                    (sym named) (dropped_elsewhere io tmp content d m same),
                dropped-SameFiles io tmp content d m same (SameFiles-new tmp d m same new.0),
              ),
            ))
      ]

  make_dir-Outcome :
      (made : Bool) (io : Io) (want content : Bytes) (d : Disk)
      → IsNewTemp sha root io.temp_name d
      → Outcome io want content d (
          if not made
          then (err io_error, d)
          else create_temp sha io io.temp_name
              (place want)
              want
              content
              (mkdir_all (blob_dir root sha256) d))
  make_dir-Outcome false io want content d new =
      inl (io_error, refl, same-IsKept io d d (SameFiles-refl d))
  make_dir-Outcome true io want content d new =
      create_temp-Outcome io io.temp_name want content d _
        (mkdir_all-SameFiles (blob_dir root sha256) d) refl new

  check_place-Outcome :
      (there : Bool) (io : Io) (want content : Bytes) (d : Disk)
      → IsNewTemp sha root io.temp_name d
      → is_file_entry (d (place want)) ≡ there
      → Outcome io want content d (
          if there
          then (ok (place want), d)
          else if not io.mkdir_ok
          then (err io_error, d)
          else create_temp sha io io.temp_name
              (place want)
              want
              content
              (mkdir_all (blob_dir root sha256) d))
  check_place-Outcome true io want content d new e = inr (inl (refl, refl, e))
  check_place-Outcome false io want content d new e =
      make_dir-Outcome io.mkdir_ok io want content d new

  pub put_blob-Outcome :
      (io : Io) (algo want content : Bytes) (d : Disk)
      → IsNewTemp sha root io.temp_name d
      → Outcome io want content d (put_blob sha root io algo want content d)
  unfolding put_blob
  put_blob-Outcome io algo want content d new = elim (Bool-cases (algo ≟ sha256)) [
    | inr a ↦ rw a (inl (unsupported_algorithm algo, refl, same-IsKept io d d (SameFiles-refl d)))
    | inl a ↦
        rw ((≟_iff algo sha256).0 a, ≟_refl sha256)
          (check_place-Outcome (is_file_entry (d (place want))) io want content d new refl)
  ]

  pub put_blob-sha256 :
      (io : Io) (algo want content : Bytes) (d : Disk) {p : Bytes}
      → (put_blob sha root io algo want content d).0 ≡ ok p
      → algo ≡ sha256
  unfolding put_blob
  put_blob-sha256 io algo want content d h = elim (Bool-cases (algo ≟ sha256)) [
    | inl a ↦ (≟_iff algo sha256).0 a
    | inr a ↦ absurd (cc (rw a at h))
  ]
