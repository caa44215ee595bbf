-- ===== src/Cache/Samples.antt =====
-- A cache to test with: an empty disk, a hash that is the identity, so that a content is stored
-- under itself, and an operating system whose calls succeed.
use dvm.Base.{Bytes, codes, true, none, some}
use dvm.Base.{◌≡◌, ◌≢◌, ◌∙◌, sym, subst, join, scan, split, ◌≟◌}
use dvm.Base.FilePath.{join_path, clean, parts}
use dvm.Base.PathParts.{append-cancel}
use dvm.Cache.Disk.{Disk}
use dvm.Cache.Store.{is_hex, blob_file, sha256}
use dvm.Cache.Store.{Io}
use dvm.Cache.BlobPaths.{IsDigits, blob_file-append, IsDigits-IsName}
use dvm.Cache.Commits.{IsIntact, IsNewTemp}

abbrev pub hash : Bytes → Bytes
hash content = content

abbrev pub root : Bytes
root = codes "/c"

abbrev pub empty_disk : Disk
empty_disk p = none

abbrev pub temp : Bytes
temp = codes "/c/blobs/sha256/.tmp-7"

abbrev pub io : Io
io = record {
  mkdir_ok = true;
  temp_name = some temp;
  copy_ok = true;
  close_ok = true;
  rename_ok = true;
  remove_ok = true;
}

pub temp-new : (hex : Bytes) → IsDigits hex → temp ≢ blob_file root sha256 hex
unfolding blob_file join_path clean parts join is_hex split scan ◌≟◌
temp-new hex d e =
    let same : codes ".tmp-7" ≡ hex =
      append-cancel (codes "/c/blobs/sha256/") (codes ".tmp-7") hex
        (e ∙ blob_file-append b'/' (codes "c") sha256 hex (IsDigits-IsName hex d)) in
    cc (subst (λ s. is_hex s ≡ true) (sym same) d.valid)

pub empty-IsIntact : IsIntact hash root empty_disk
empty-IsIntact hex content d h = absurd (cc h)

pub io-IsNewTemp : IsNewTemp hash root io.temp_name empty_disk
io-IsNewTemp = (λ c h. absurd (cc h), temp-new)
