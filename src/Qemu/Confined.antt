-- ===== src/Qemu/Confined.antt =====
-- The unpacking of a release archive writes below its directory only.
use dvm.Base.{
  Bytes, codes, ◌≟◌, ≟_iff, has_prefix, has_prefix-append, Bool, true, false, ◌||◌, List, [], ◌∷◌,
  ◌++◌, append_assoc, some, ok, err,
}
use dvm.Base.{◌≡◌, ◌≢◌, ◌↔◌, inl, inr, refl, sym, ap, ◌∙◌, subst, Bool-cases}
use dvm.Base.FilePath.{dot, dot_dot, clean, parts, dir_path}
use dvm.Base.PathJoin.{IsUnder, join_path-IsUnder}
use dvm.Cache.Disk.{Disk, file, write_file, mkdir_all, is_below, mkdir_all-SameFiles}
use dvm.Qemu.Tar.{
  TarKind, folder, regular, other, TarEntry, Archive, ExtractIo, Place, skipped, unsafe, at,
  place_of, Extracted, put_file, put_kind, put_entry, and_then, put_entries, extract,
}

-- Outside of a directory the files are the same.
abbrev pub SameOutside : Bytes → Disk → Disk → Type 0
SameOutside base d d' =
    (q content : Bytes)
    → is_below base q ≡ false
    → (d' q ≡ some (file content)) ↔ (d q ≡ some (file content))

SameOutside-refl : (base : Bytes) (d : Disk) → SameOutside base d d
SameOutside-refl base d q content h = (λ e. e, λ e. e)

SameOutside-trans :
    (base : Bytes) {d d' d'' : Disk}
    → SameOutside base d d'
    → SameOutside base d' d''
    → SameOutside base d d''
SameOutside-trans base f g q content h =
    (λ e. (f q content h).0 ((g q content h).0 e), λ e. (g q content h).1 ((f q content h).1 e))

mkdir_all_outside : (base p : Bytes) (d : Disk) → SameOutside base d (mkdir_all p d)
mkdir_all_outside base p d q content h = mkdir_all-SameFiles p d q content

is_below_of_IsUnder : (base p : Bytes) → IsUnder base p → is_below base p ≡ true
unfolding is_below
is_below_of_IsUnder base p (inl e) = rw ((≟_iff p base).1 e) refl
is_below_of_IsUnder base p (inr (rest, e)) =
    or_right (p ≟ base) (has_prefix p (base ++ codes "/")) (
      subst (λ x. has_prefix x (base ++ codes "/") ≡ true)
        (append_assoc base (codes "/") rest ∙ sym e) (has_prefix-append (base ++ codes "/") rest))
  where
    or_right : (a b : Bool) → b ≡ true → (a || b) ≡ true
    or_right true b e = refl
    or_right false b e = e

write_file_outside :
    (base p content : Bytes) (d : Disk)
    → is_below base p ≡ true
    → SameOutside base d (write_file p content d)
unfolding write_file
write_file_outside base p content d below q c h = elim (Bool-cases (q ≟ p)) [
  | inl y ↦ absurd (cc (below, h, (≟_iff q p).0 y))
  | inr n ↦ rw n (λ e. e, λ e. e)
]

place_of_below :
    (dest name target : Bytes)
    → parts dest ≢ []
    → place_of dest name ≡ at target
    → is_below (clean dest) target ≡ true
unfolding place_of
place_of_below dest name target some_dest e = elim (Bool-cases (clean name ≟ dot)) [
  | inl y ↦ absurd (cc (rw (place_of, y) at e))
  | inr n ↦ elim (Bool-cases (has_prefix (clean name) (codes "../") || (clean name ≟ dot_dot))) [
    | inl y ↦ absurd (cc (rw (place_of, n, y) at e))
    | inr m ↦
        subst (λ x. is_below (clean dest) x ≡ true) (same_place (rw (place_of, n, m) at e))
          (is_below_of_IsUnder (clean dest) _
            (join_path-IsUnder dest name some_dest (λ x. cc (n, (≟_iff (clean name) dot).1 x)) m))
  ]
]
  where
    path_of : Place → Bytes
    path_of skipped = []
    path_of unsafe = []
    path_of (at p) = p

    same_place : {p q : Bytes} → at p ≡ at q → p ≡ q
    same_place e' = ap path_of e'

put_file_outside :
    (base target : Bytes) (io : ExtractIo) (e : TarEntry) (d : Disk)
    → is_below base target ≡ true
    → SameOutside base d (put_file io target e d).1
unfolding put_file
put_file_outside base target io e d below = elim (Bool-cases (io.mkdir_ok (dir_path target))) [
  | inr n ↦ rw (put_file, n) (SameOutside-refl base d)
  | inl y ↦ elim (Bool-cases (io.create_ok target)) [
    | inr n ↦ rw (put_file, y, n) (mkdir_all_outside base (dir_path target) d)
    | inl z ↦
        rw (put_file, y, z)
          (SameOutside-trans base (mkdir_all_outside base (dir_path target) d)
            (write_file_outside base target e.content _ below))
  ]
]

put_kind_outside :
    (base target : Bytes) (io : ExtractIo) (kind : TarKind) (e : TarEntry) (d : Disk)
    → is_below base target ≡ true
    → SameOutside base d (put_kind io kind target e d).1
unfolding put_kind
put_kind_outside base target io folder e d below = elim (Bool-cases (io.mkdir_ok target)) [
  | inl y ↦ rw (put_kind, y) (mkdir_all_outside base target d)
  | inr n ↦ rw (put_kind, n) (SameOutside-refl base d)
]
put_kind_outside base target io regular e d below = put_file_outside base target io e d below
put_kind_outside base target io other e d below = SameOutside-refl base d

put_entry_outside :
    (base : Bytes) (io : ExtractIo) (p : Place) (e : TarEntry) (d : Disk)
    → ((target : Bytes) → p ≡ at target → is_below base target ≡ true)
    → SameOutside base d (put_entry io p e d).1
unfolding put_entry
put_entry_outside base io skipped e d below = SameOutside-refl base d
put_entry_outside base io unsafe e d below = SameOutside-refl base d
put_entry_outside base io (at target) e d below =
    put_kind_outside base target io e.kind e d (below target refl)

and_then_outside :
    (base : Bytes) (d : Disk) (x : Extracted) (next : Disk → Extracted)
    → SameOutside base d x.1
    → ((d' : Disk) → SameOutside base d' (next d').1)
    → SameOutside base d (and_then x next).1
unfolding and_then
and_then_outside base d (ok u, d') next before after = SameOutside-trans base before (after d')
and_then_outside base d (err e, d') next before after = before

put_entries_outside :
    (io : ExtractIo) (dest : Bytes) (complete : Bool) (es : List TarEntry) (d : Disk)
    → parts dest ≢ []
    → SameOutside (clean dest) d (put_entries io dest complete es d).1
unfolding put_entries
put_entries_outside io dest complete [] d some_dest = SameOutside-refl (clean dest) d
put_entries_outside io dest complete (e ∷ es) d some_dest =
    and_then_outside (clean dest) d (put_entry io (place_of dest e.name) e d)
      (put_entries io dest complete es)
      (put_entry_outside (clean dest) io (place_of dest e.name) e d
        (λ target p. place_of_below dest e.name target some_dest p))
      (λ d'. put_entries_outside io dest complete es d' some_dest)

-- Whatever the names in an archive are, absolute ones and ones with `..` in any place included, and
-- wherever the unpacking fails, no file outside of the directory that it is unpacked to is made,
-- changed or removed; the directory is neither the working one nor the root.
pub extract-SameOutside :
    (io : ExtractIo) (dest : Bytes) (a : Archive) (d : Disk) (q content : Bytes)
    → parts dest ≢ []
    → is_below (clean dest) q ≡ false
    → ((extract io dest a d).1 q ≡ some (file content)) ↔ (d q ≡ some (file content))
unfolding extract
extract-SameOutside io dest a d q content some_dest = elim (Bool-cases (io.mkdir_ok dest)) [
  | inr n ↦ rw (extract, n) (SameOutside-refl (clean dest) d q content)
  | inl y ↦
      rw (extract, y)
        (SameOutside-trans (clean dest) (mkdir_all_outside (clean dest) dest d)
          (put_entries_outside io dest a.complete a.entries (mkdir_all dest d) some_dest) q content)
]
