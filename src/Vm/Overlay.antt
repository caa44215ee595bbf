-- ===== src/Vm/Overlay.antt =====
-- internal/vm/overlay.go, and prepareDisk of internal/vm/lifecycle.go. The program qemu-img is a
-- parameter: from the base's format, the base and the overlay's path, whether the command succeeds,
-- and the disk behind it.
use dvm.Base.{
  Bytes, codes, ◌≟◌, is_empty, Bool, true, false, not, ◌||◌, Option, none, some, [], ◌∷◌,
  if◌then◌else◌,
}
use dvm.Base.{Result, ok, err, take, length, ltb}
use dvm.Cache.Disk.{Disk, Entry, file, directory, remove}

pub data DiskError : Type 0 where
  no_qemu_img : DiskError
  unreadable_base : DiskError
  create_failed : DiskError
  reset_failed : DiskError

abbrev pub qcow2_magic : Bytes
qcow2_magic = b'Q' ∷ b'F' ∷ b'I' ∷ 251 ∷ []

abbrev pub format_of : Bytes → Bytes
format_of magic = if magic ≟ qcow2_magic then codes "qcow2" else codes "raw"

-- `diskFormat`; fewer than four bytes cannot be read.
unfoldable pub disk_format : Option Entry → Option Bytes
disk_format none = none
disk_format (some directory) = none
disk_format (some (file content)) =
    if ltb (length content) 4 then none else some (format_of (take 4 content))

abbrev pub is_there : Option Entry → Bool
is_there none = false
is_there (some e) = true

-- `RemoveOverlay`: a file that is not there is no error.
unfoldable pub remove_overlay : Bool → Bytes → Disk → Result DiskError (Unit {0}) × Disk
remove_overlay can_remove overlay d =
    if not (is_there (d overlay))
    then (ok tt, d)
    else if can_remove
    then (ok tt, remove overlay d)
    else (err reset_failed, d)

-- Whether qemu-img succeeds, and the disk that it leaves, in part written where it fails
abbrev pub created : Bool × Disk → Result DiskError (Unit {0}) × Disk
created (true, d) = (ok tt, d)
created (false, d) = (err create_failed, d)

module _ (qemu_img : Bytes → Bytes → Bytes → Bytes → Disk → Bool × Disk) where
  unfoldable pub run_create :
      Bytes → Bytes → Bytes → Option Bytes → Disk → Result DiskError (Unit {0}) × Disk
  run_create img base overlay none d = (err unreadable_base, d)
  run_create img base overlay (some fmt) d = created (qemu_img img fmt base overlay d)

  -- `CreateOverlay`
  unfoldable pub create_overlay : Bytes → Bytes → Bytes → Disk → Result DiskError (Unit {0}) × Disk
  create_overlay img base overlay d =
      if is_there (d overlay)
      then (ok tt, d)
      else if is_empty img
      then (err no_qemu_img, d)
      else run_create img base overlay (disk_format (d base)) d

  unfoldable pub create_after :
      Bytes
      → Bytes
      → Bytes
      → Result DiskError (Unit {0}) × Disk
      → Result DiskError (Unit {0}) × Disk
  create_after img base overlay (err e, d) = (err e, d)
  create_after img base overlay (ok u, d) = create_overlay img base overlay d

  -- `prepareDisk`
  unfoldable pub prepare_disk :
      Bool → Bool → Bool → Bytes → Bytes → Bytes → Disk → Result DiskError (Unit {0}) × Disk
  prepare_disk reset persist can_remove img base overlay d =
      if reset || not persist
      then create_after img base overlay (remove_overlay can_remove overlay d)
      else create_overlay img base overlay d
