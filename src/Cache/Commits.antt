-- ===== src/Cache/Commits.antt =====
-- What moving a temporary file to a blob's place does to the files.
use dvm.Base.{Bytes, ◌≟◌, ≟_iff, ≟_refl, Option, none, some}
use dvm.Base.{true, ok, err, ◌≡◌, ◌≢◌, ◌↔◌, ◌⊎◌, inl, inr, refl, sym, arith}
use dvm.Base.{Bool-cases}
use dvm.Cache.Disk.{file, Disk, write_file, remove, rename}
use dvm.Cache.Disk.{SameFiles}
use dvm.Cache.Store.{CacheError, io_error, digest_mismatch, sha256, blob_file}
use dvm.Cache.Store.{Io, commit, drop_temp}
use dvm.Cache.BlobPaths.{IsDigits}

module _ (sha : Bytes → Bytes) (root : Bytes) where
  -- A file at the path of a SHA-256 digest has that digest.
  abbrev pub IsIntact : Disk → Type 0
  IsIntact d =
      (hex content : Bytes)
      → IsDigits hex
      → d (blob_file root sha256 hex) ≡ some (file content)
      → sha content ≡ hex

  -- A temporary file is new, and no blob is called like it: os.CreateTemp makes a file that did not
  -- exist, and its name begins with a dot.
  abbrev pub IsNewTemp : Option Bytes → Disk → Type 0
  IsNewTemp none d = Unit
  IsNewTemp (some tmp) d =
      ((content : Bytes) → d tmp ≢ some (file content))
      × ((hex : Bytes) → IsDigits hex → tmp ≢ blob_file root sha256 hex)

pub SameFiles-refl : (d : Disk) → SameFiles d d
SameFiles-refl d x content = (λ h. h, λ h. h)

pub SameFiles-trans : (a b c : Disk) → SameFiles a b → SameFiles b c → SameFiles a c
SameFiles-trans a b c p q x content =
    (λ h. (p x content).0 ((q x content).0 h), λ h. (q x content).1 ((p x content).1 h))

pub remove-write :
    (tmp content : Bytes) (d : Disk)
    → ((c : Bytes) → d tmp ≢ some (file c))
    → SameFiles d (remove tmp (write_file tmp content d))
unfolding remove write_file
remove-write tmp content d new q c = elim (Bool-cases (q ≟ tmp)) [
  | inl e ↦ rw e (λ h. cc, λ h. absurd (new c (rw (← (≟_iff q tmp).0 e) h)))
  | inr e ↦ rw e (λ h. h, λ h. h)
]

-- The file is not the temporary one.
abbrev pub IsOther : Option Bytes → Bytes → Type 0
IsOther none q = Unit
IsOther (some tmp) q = q ≢ tmp

-- Every file but the temporary one is what it was.
abbrev pub SameElsewhere : Option Bytes → Disk → Disk → Type 0
SameElsewhere temp d d' =
    (q content : Bytes)
    → IsOther temp q
    → (d' q ≡ some (file content)) ↔ (d q ≡ some (file content))

pub SameFiles-SameElsewhere :
    (temp : Option Bytes) (d d' : Disk) → SameFiles d d' → SameElsewhere temp d d'
SameFiles-SameElsewhere temp d d' same q content other = same q content

pub dropped_elsewhere :
    (io : Io) (tmp content : Bytes) (d m : Disk)
    → SameFiles d m
    → SameElsewhere (some tmp) d (drop_temp io tmp (write_file tmp content m))
unfolding drop_temp remove write_file
dropped_elsewhere io tmp content d m same q c other = elim (Bool-cases (q ≟ tmp)) [
  | inl e ↦ absurd (other ((≟_iff q tmp).0 e))
  | inr e ↦ elim (Bool-cases io.remove_ok) [
    | inl y ↦ rw (y, e) (same q c)
    | inr n ↦ rw (n, e) (same q c)
  ]
]

pub dropped-SameFiles :
    (io : Io) (tmp content : Bytes) (d m : Disk)
    → SameFiles d m
    → ((c : Bytes) → m tmp ≢ some (file c))
    → io.remove_ok ≡ true
    → SameFiles d (drop_temp io tmp (write_file tmp content m))
unfolding drop_temp
dropped-SameFiles io tmp content d m same new y =
    rw y (SameFiles-trans d m _ same (remove-write tmp content m new))

pub blob_file-IsOther :
    (sha : Bytes → Bytes) (root : Bytes) (temp : Option Bytes) (d : Disk) (hex : Bytes)
    → IsNewTemp sha root temp d
    → IsDigits hex
    → IsOther temp (blob_file root sha256 hex)
blob_file-IsOther sha root none d hex new digits = tt
blob_file-IsOther sha root (some tmp) d hex new digits = λ e. new.1 hex digits (sym e)

-- The disk after a blob has been moved to its place.
abbrev pub moved : Bytes → Bytes → Bytes → Disk → Disk
moved tmp final content d = remove tmp (rename tmp final (write_file tmp content d))

pub moved_at :
    (tmp final content : Bytes) (d : Disk)
    → tmp ≢ final
    → moved tmp final content d final ≡ some (file content)
unfolding remove rename write_file
moved_at tmp final content d ne =
    ground (arith, ≟_iff final tmp, ≟_refl final, ≟_refl tmp, λ (e : final ≡ tmp). ne (sym e))

pub moved_file :
    (tmp final content : Bytes) (d : Disk) (q c : Bytes)
    → moved tmp final content d q ≡ some (file c)
    → (q ≡ final) × (c ≡ content) ⊎ (d q ≡ some (file c))
unfolding remove rename write_file
moved_file tmp final content d q c h = ground (arith, ≟_iff q tmp, ≟_iff q final, ≟_refl tmp)

module _ (sha : Bytes → Bytes) where
  -- A commit moves a content with the right hash to its place, or fails and leaves the files alone.
  pub commit-cases :
      (io : Io) (tmp final want content : Bytes) (d : Disk)
      → (commit sha io tmp final want content d ≡ (ok final, moved tmp final content d))
          × (sha content ≡ want)
        ⊎ ((e : CacheError) × (commit sha io tmp final want content d
              ≡ (err e, drop_temp io tmp (write_file tmp content d))))
  unfolding commit
  commit-cases io tmp final want content d = elim (Bool-cases io.copy_ok) [
    | inr a ↦ rw a (inr (io_error, refl))
    | inl a ↦ elim (Bool-cases io.close_ok) [
      | inr b ↦ rw (a, b) (inr (io_error, refl))
      | inl b ↦ elim (Bool-cases (sha content ≟ want)) [
        | inr x ↦ rw (a, b, x) (inr (digest_mismatch want (sha content), refl))
        | inl x ↦ elim (Bool-cases io.rename_ok) [
          | inr y ↦ rw (a, b, x, y) (inr (io_error, refl))
          | inl y ↦ rw (a, b, x, y) (inl (refl, (≟_iff (sha content) want).0 x))
        ]
      ]
    ]
  ]
