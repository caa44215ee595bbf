-- ===== src/Vm/Disks.antt =====
-- What the disk is when QEMU starts.
use dvm.Vm.Overlay.{created}
use dvm.Base.{
  Bytes, ◌≟◌, ≟_iff, ≟_refl, is_empty, Bool, true, false, not, ◌||◌, Option, none, some, ok, err,
}
use dvm.Base.{◌≡◌, ◌≢◌, ◌⊎◌, inl, inr, refl, Bool-cases}
use dvm.Cache.Disk.{Disk, remove}
use dvm.Vm.Overlay.{
  DiskError, reset_failed, disk_format, is_there, remove_overlay, run_create, create_overlay,
  create_after, prepare_disk,
}

created-ok : (x : Bool × Disk) → (created x).0 ≡ ok tt → x ≡ (true, (created x).1)
created-ok (true, d) e = refl
created-ok (false, d) e = absurd (cc e)

module _ (qemu_img : Bytes → Bytes → Bytes → Bytes → Disk → Bool × Disk) where
  -- The overlay was made by qemu-img, on a disk without one, from the base and its format.
  abbrev pub IsMade : Bytes → Bytes → Bytes → Disk → Disk → Type 0
  IsMade img base overlay d d' =
      (fmt : Bytes) × (disk_format (d base) ≡ some fmt)
      × (qemu_img img fmt base overlay d ≡ (true, d'))

  run_create-ok :
      (img base overlay : Bytes) (fmt : Option Bytes) (d : Disk)
      → (run_create qemu_img img base overlay fmt d).0 ≡ ok tt
      → (f : Bytes) × (fmt ≡ some f)
        × (qemu_img img f base overlay d ≡ (true, (run_create qemu_img img base overlay fmt d).1))
  unfolding run_create
  run_create-ok img base overlay none d h = absurd (cc h)
  run_create-ok img base overlay (some f) d h =
      (f, refl, created-ok (qemu_img img f base overlay d) h)

  create_overlay-ok :
      (img base overlay : Bytes) (d : Disk)
      → (create_overlay qemu_img img base overlay d).0 ≡ ok tt
      → (is_there (d overlay) ≡ true) × ((create_overlay qemu_img img base overlay d).1 ≡ d)
        ⊎ (is_there (d overlay) ≡ false)
          × IsMade img base overlay d (create_overlay qemu_img img base overlay d).1
  unfolding create_overlay
  create_overlay-ok img base overlay d h = elim (Bool-cases (is_there (d overlay))) [
    | inl y ↦ inl (y, rw (create_overlay, y) refl)
    | inr n ↦ elim (Bool-cases (is_empty img)) [
      | inl e ↦ absurd (cc (rw (create_overlay, n, e) at h))
      | inr e ↦ inr (
        n,
        rw (create_overlay, n, e)
            (run_create-ok img base overlay (disk_format (d base)) d
              (rw (create_overlay, n, e) at h)),
      )
    ]
  ]

  removed_is_gone : (overlay : Bytes) (d : Disk) → is_there (remove overlay d overlay) ≡ false
  unfolding remove
  removed_is_gone overlay d = rw (≟_refl overlay) refl

  removed_elsewhere :
      (overlay : Bytes) (d : Disk) (q : Bytes) → q ≢ overlay → remove overlay d q ≡ d q
  unfolding remove
  removed_elsewhere overlay d q ne = elim (Bool-cases (q ≟ overlay)) [
    | inl y ↦ absurd (ne ((≟_iff q overlay).0 y))
    | inr n ↦ rw n refl
  ]

  -- The disk without an overlay that a new overlay is made on.
  abbrev pub IsCleared : Bytes → Disk → Disk → Type 0
  IsCleared overlay d d' =
      (is_there (d' overlay) ≡ false) × ((q : Bytes) → q ≢ overlay → d' q ≡ d q)

  remove_overlay-cases :
      (can_remove : Bool) (overlay : Bytes) (d : Disk)
      → ((e : DiskError) × (m : Disk) × (remove_overlay can_remove overlay d ≡ (err e, m)))
        ⊎ ((m : Disk) × (remove_overlay can_remove overlay d ≡ (ok tt, m)) × IsCleared overlay d m)
  unfolding remove_overlay
  remove_overlay-cases can_remove overlay d = elim (Bool-cases (is_there (d overlay))) [
    | inr n ↦ inr (d, rw (remove_overlay, n) refl, (n, λ q ne. refl))
    | inl y ↦ elim (Bool-cases can_remove) [
      | inl c ↦ inr (
        remove overlay d,
        rw (remove_overlay, y, c) refl,
        (removed_is_gone overlay d, λ q ne. removed_elsewhere overlay d q ne),
      )
      | inr c ↦ inl (reset_failed, d, rw (remove_overlay, y, c) refl)
    ]
  ]

  create_after-ok :
      (img base overlay : Bytes) (d m : Disk)
      → IsCleared overlay d m
      → (create_overlay qemu_img img base overlay m).0 ≡ ok tt
      → IsMade img base overlay m (create_overlay qemu_img img base overlay m).1
  create_after-ok img base overlay d m (gone, same) h =
      elim (create_overlay-ok img base overlay m h) [
        | inl (y, e) ↦ absurd (cc (y, gone))
        | inr (n, made) ↦ made
      ]

  -- When the disk is ready, an overlay that is to persist was there and is untouched, or the overlay
  -- was made from the base on a disk that had none and was otherwise as before. A reset, or a disk
  -- that is not to persist, always takes the second way.
  pub prepare_disk_lem :
      (reset persist can_remove : Bool) (img base overlay : Bytes) (d : Disk)
      → (prepare_disk qemu_img reset persist can_remove img base overlay d).0 ≡ ok tt
      → ((reset || not persist) ≡ false)
          × (is_there (d overlay) ≡ true)
          × ((prepare_disk qemu_img reset persist can_remove img base overlay d).1 ≡ d)
        ⊎ ((m : Disk) × IsCleared overlay d m
            × IsMade img base overlay m
                (prepare_disk qemu_img reset persist can_remove img base overlay d).1)
  unfolding prepare_disk create_after
  prepare_disk_lem reset persist can_remove img base overlay d h =
      elim (Bool-cases (reset || not persist)) [
        | inl y ↦ elim (remove_overlay-cases can_remove overlay d) [
          | inl (e, m, x) ↦ absurd (cc (rw (prepare_disk, y, x) at h))
          | inr (m, x, cleared) ↦ inr (
            m,
            cleared,
            rw (prepare_disk, y, x)
                (create_after-ok img base overlay d m cleared (rw (prepare_disk, y, x) at h)),
          )
        ]
        | inr n ↦ elim (create_overlay-ok img base overlay d (rw (prepare_disk, n) at h)) [
          | inl (there, same) ↦ inl (n, there, rw (prepare_disk, n) same)
          | inr (gone, made) ↦ inr (d, (gone, λ q ne. refl), rw (prepare_disk, n) made)
        ]
      ]
