-- ===== src/Cache/Disk.antt =====
-- The part of a file system that the cache uses: what stands at each path.
use dvm.Base.{
  drop, length, Bytes, codes, ◌≟◌, is_empty, has_prefix, Bool, true, false, not, ◌&&◌, ◌||◌,
}
use dvm.Base.{Option, none, some, ◌++◌, if◌then◌else◌, ◌≡◌, ◌↔◌, arith}

pub data Entry : Type 0 where
  file : Bytes → Entry
  directory : Entry

abbrev pub Disk : Type 0
Disk = Bytes → Option Entry

-- A write of a whole file.
unfoldable pub write_file : Bytes → Bytes → Disk → Disk
write_file p content d q = if q ≟ p then some (file content) else d q

-- os.Remove; a path that is not there is left alone.
unfoldable pub remove : Bytes → Disk → Disk
remove p d q = if q ≟ p then none else d q

-- os.Rename of a file over whatever stands at the new path
unfoldable pub rename : Bytes → Bytes → Disk → Disk
rename old new d q = if q ≟ new then d old else if q ≟ old then none else d q

-- os.MkdirAll: the path and the directories above it
unfoldable pub mkdir_all : Bytes → Disk → Disk
mkdir_all p d q =
    let above = q ≟ p || (not (is_empty q) && has_prefix p (q ++ codes "/")) in
    elim (d q) [ some e ↦ some e | none ↦ if above then some directory else none ]

-- What stands at the path or below it.
unfoldable pub is_below : Bytes → Bytes → Bool
is_below p q = q ≟ p || has_prefix q (p ++ codes "/")

-- os.RemoveAll
unfoldable pub remove_all : Bytes → Disk → Disk
remove_all p d q = if is_below p q then none else d q

-- os.Rename of a directory to a path where nothing stands
unfoldable pub rename_dir : Bytes → Bytes → Disk → Disk
rename_dir old new d q =
    if is_below new q then d (old ++ drop (length new) q) else if is_below old q then none else d q

abbrev pub is_file_entry : Option Entry → Bool
is_file_entry none = false
is_file_entry (some (file content)) = true
is_file_entry (some directory) = false

-- The same files, whatever directories there are.
abbrev pub SameFiles : Disk → Disk → Type 0
SameFiles d d' = (q content : Bytes) → (d' q ≡ some (file content)) ↔ (d q ≡ some (file content))

pub mkdir_all-SameFiles : (p : Bytes) (d : Disk) → SameFiles d (mkdir_all p d)
unfolding mkdir_all
mkdir_all-SameFiles p d q content = (λ h. ground arith, λ h. rw (h, mkdir_all))
