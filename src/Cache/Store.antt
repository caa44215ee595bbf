-- ===== src/Cache/Store.antt =====
-- internal/cache/cache.go. `sha` is the hexadecimal SHA-256 of a content, as crypto/sha256 and
-- encoding/hex give it. Which calls of the operating system succeed is the record `Io`.
use dvm.Base.{ℕ, Bytes, codes, ◌≟◌, is_empty, cut, leb, Bool, true, false, not, ◌&&◌, ◌||◌}
use dvm.Base.{Option, none, some, [], ◌∷◌, if◌then◌else◌, Result, ok, err}
use dvm.Base.FilePath.{join_path}
use dvm.Cache.Disk.{Entry, file, Disk, write_file, remove, rename, mkdir_all, is_file_entry}

abbrev pub is_hex_digit : ℕ → Bool
is_hex_digit c =
    (leb b'0' c && leb c b'9') || (leb b'a' c && leb c b'f') || (leb b'A' c && leb c b'F')

-- hex.DecodeString succeeds on an even number of hexadecimal digits.
unfoldable pub is_hex : Bytes → Bool
is_hex [] = true
is_hex (c ∷ []) = false
is_hex (c ∷ d ∷ s) = is_hex_digit c && is_hex_digit d && is_hex s

pub data CacheError : Type 0 where
  empty_root : CacheError
  invalid_digest : CacheError
  unsupported_algorithm : Bytes → CacheError
  io_error : CacheError
  digest_mismatch : Bytes → Bytes → CacheError

-- `splitDigest`: the algorithm and the digits
unfoldable pub split_digest : Bytes → Option (Bytes × Bytes)
split_digest digest = elim (cut digest b':') [
  | none ↦ none
  | some (algo, hex) ↦
      if is_empty algo || is_empty hex then none else if is_hex hex then some (algo, hex) else none
]

abbrev pub sha256 : Bytes
sha256 = codes "sha256"

unfoldable pub blob_dir : Bytes → Bytes → Bytes
blob_dir root algo = join_path (root ∷ codes "blobs" ∷ algo ∷ [])

unfoldable pub blob_file : Bytes → Bytes → Bytes → Bytes
blob_file root algo hex = join_path (root ∷ codes "blobs" ∷ algo ∷ hex ∷ [])

-- `BlobPath`
unfoldable pub blob_path : Bytes → Bytes → Option Bytes
blob_path root digest = elim (split_digest digest) [
  | none ↦ none
  | some (algo, hex) ↦ some (blob_file root algo hex)
]

-- `Has`
unfoldable pub has : Bytes → Bytes → Disk → Bool
has root digest d = elim (blob_path root digest) [ none ↦ false | some p ↦ is_file_entry (d p) ]

-- What the operating system does during one call: the temporary file's name, if it can be created,
-- and whether the other calls succeed.
pub record Io : Type 0 where
  pub mkdir_ok : Bool
  pub temp_name : Option Bytes
  pub copy_ok : Bool
  pub close_ok : Bool
  pub rename_ok : Bool
  pub remove_ok : Bool

-- `New`; the root is the state of the cache.
unfoldable pub new_cache : Bytes → Io → Disk → Result CacheError Bytes × Disk
new_cache root io d =
    if is_empty root
    then (err empty_root, d)
    else if io.mkdir_ok
    then (ok root, mkdir_all (join_path (root ∷ codes "blobs" ∷ [])) d)
    else (err io_error, d)

-- The deferred removal of the temporary file, whose error is ignored
unfoldable pub drop_temp : Io → Bytes → Disk → Disk
drop_temp io tmp d = if io.remove_ok then remove tmp d else d

module _ (sha : Bytes → Bytes) where
  -- From the temporary file on; the deferred removal of that file ends every way out, and finds no
  -- file behind the rename.
  unfoldable pub commit : Io → Bytes → Bytes → Bytes → Bytes → Disk → Result CacheError Bytes × Disk
  commit io tmp final want content d =
      let written = write_file tmp content d in
      if not io.copy_ok
      then (err io_error, drop_temp io tmp written)
      else if not io.close_ok
      then (err io_error, drop_temp io tmp written)
      else if not (sha content ≟ want)
      then (err (digest_mismatch want (sha content)), drop_temp io tmp written)
      else if not io.rename_ok
      then (err io_error, drop_temp io tmp written)
      else (ok final, remove tmp (rename tmp final written))

  unfoldable pub create_temp :
      Io → Option Bytes → Bytes → Bytes → Bytes → Disk → Result CacheError Bytes × Disk
  create_temp io none final want content d = (err io_error, d)
  create_temp io (some tmp) final want content d = commit io tmp final want content d

  unfoldable pub put_blob :
      Bytes → Io → Bytes → Bytes → Bytes → Disk → Result CacheError Bytes × Disk
  put_blob root io algo want content d =
      if not (algo ≟ sha256)
      then (err (unsupported_algorithm algo), d)
      else if is_file_entry (d (blob_file root algo want))
      then (ok (blob_file root algo want), d)
      else if not io.mkdir_ok
      then (err io_error, d)
      else create_temp io io.temp_name (blob_file root algo want) want content
          (mkdir_all (blob_dir root algo) d)

  -- `PutStream` of a reader that yields `content`; a read error is a failed copy.
  unfoldable pub put_stream : Bytes → Io → Bytes → Bytes → Disk → Result CacheError Bytes × Disk
  put_stream root io digest content d = elim (split_digest digest) [
    | none ↦ (err invalid_digest, d)
    | some (algo, want) ↦ put_blob root io algo want content d
  ]

  unfoldable pub check_content : Bytes → Bool → Option Entry → Result CacheError (Unit {0})
  check_content want can_read (some (file content)) =
      if not can_read
      then err io_error
      else if sha content ≟ want
      then ok tt
      else err (digest_mismatch want (sha content))
  check_content want can_read _ = err io_error

  -- `Verify`; the Boolean says whether the file can be read.
  unfoldable pub verify : Bytes → Bytes → Bool → Disk → Result CacheError (Unit {0})
  unfolding check_content
  verify root digest can_read d = elim (split_digest digest) [
    | none ↦ err invalid_digest
    | some (algo, want) ↦ check_content want can_read (d (blob_file root algo want))
  ]
