-- ===== src/Qemu/Tar.antt =====
-- internal/qemu/download.go: unpacking a release archive. Reading a compressed archive is a
-- parameter of `Download`; here it is the list of its entries.
use dvm.Base.{Bytes, codes, ◌≟◌, has_prefix, Bool, not, ◌||◌, List, [], ◌∷◌, if◌then◌else◌}
use dvm.Base.{Result, ok, err}
use dvm.Base.FilePath.{dot, dot_dot, clean, join_path, dir_path}
use dvm.Cache.Disk.{Disk, write_file, mkdir_all}

pub data TarKind : Type 0 where
  folder : TarKind
  regular : TarKind
  other : TarKind

-- A header with what a copy of the entry yields, and whether the copy ends without an error.
pub record TarEntry : Type 0 where
  pub name : Bytes
  pub kind : TarKind
  pub content : Bytes
  pub readable : Bool

-- The entries, and whether the archive ends without an error.
pub record Archive : Type 0 where
  pub entries : List TarEntry
  pub complete : Bool

pub data ExtractError : Type 0 where
  unreadable_archive : ExtractError
  unsafe_path : Bytes → ExtractError
  cannot_create : Bytes → ExtractError
  copy_failed : Bytes → ExtractError

-- Which directories and files can be made.
pub record ExtractIo : Type 0 where
  pub mkdir_ok : Bytes → Bool
  pub create_ok : Bytes → Bool

-- Where an entry goes.
pub data Place : Type 0 where
  skipped : Place
  unsafe : Place
  at : Bytes → Place

unfoldable pub place_of : Bytes → Bytes → Place
place_of dest name =
    if clean name ≟ dot
    then skipped
    else if has_prefix (clean name) (codes "../") || (clean name ≟ dot_dot)
    then unsafe
    else at (join_path (dest ∷ clean name ∷ []))

abbrev pub Extracted : Type 0
Extracted = Result ExtractError (Unit {0}) × Disk

-- A file: its directory, the file made empty, and the copy.
unfoldable pub put_file : ExtractIo → Bytes → TarEntry → Disk → Extracted
put_file io target e d =
    if not (io.mkdir_ok (dir_path target))
    then (err (cannot_create (dir_path target)), d)
    else if not (io.create_ok target)
    then (err (cannot_create target), mkdir_all (dir_path target) d)
    else (
      if e.readable then ok tt else err (copy_failed target),
      write_file target e.content (mkdir_all (dir_path target) d),
    )

unfoldable pub put_kind : ExtractIo → TarKind → Bytes → TarEntry → Disk → Extracted
put_kind io folder target e d =
    if io.mkdir_ok target then (ok tt, mkdir_all target d) else (err (cannot_create target), d)
put_kind io regular target e d = put_file io target e d
put_kind io other target e d = (ok tt, d)

-- One round of the loop.
unfoldable pub put_entry : ExtractIo → Place → TarEntry → Disk → Extracted
put_entry io skipped e d = (ok tt, d)
put_entry io unsafe e d = (err (unsafe_path e.name), d)
put_entry io (at target) e d = put_kind io e.kind target e d

unfoldable pub and_then : Extracted → (Disk → Extracted) → Extracted
and_then (ok u, d) next = next d
and_then (err e, d) next = (err e, d)

unfoldable pub put_entries : ExtractIo → Bytes → Bool → List TarEntry → Disk → Extracted
put_entries io dest complete [] d = (if complete then ok tt else err unreadable_archive, d)
put_entries io dest complete (e ∷ es) d =
    and_then (put_entry io (place_of dest e.name) e d) (put_entries io dest complete es)

-- `extractTarGz`, once the archive is open
unfoldable pub extract : ExtractIo → Bytes → Archive → Disk → Extracted
extract io dest a d =
    if io.mkdir_ok dest
    then put_entries io dest a.complete a.entries (mkdir_all dest d)
    else (err (cannot_create dest), d)
