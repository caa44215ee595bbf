-- ===== src/Cache/Tests.antt =====
-- Tests of internal/cache/cache.go, and its theorems at concrete inputs.
use dvm.Base.{false}
use dvm.Cache.Refinement.{Digests, added, Represents, put_stream-Represents}
use dvm.Base.{codes, true, some, ok, err}
use dvm.Base.{◌≡◌, refl, cut, join, split, ◌≟◌}
use dvm.Base.FilePath.{join_path}
use dvm.Cache.Disk.{SameFiles}
use dvm.Cache.Store.{digest_mismatch, split_digest, is_hex, blob_file, sha256, blob_path, has}
use dvm.Cache.Store.{commit, create_temp, put_blob, put_stream, verify}
use dvm.Cache.BlobPaths.{IsDigits}
use dvm.Cache.Commits.{IsIntact}
use dvm.Cache.Integrity.{put_stream-IsIntact, put_stream-SameFiles, put_stream-Stored}
use dvm.Cache.Samples.{hash, root, empty_disk, io, empty-IsIntact, io-IsNewTemp}

ab-IsDigits : IsDigits (codes "ab")
unfolding is_hex
ab-IsDigits = record { full = λ e. cc e; valid = refl }

put_ab :
    (put_stream hash root io (codes "sha256:ab") (codes "ab") empty_disk).0
    ≡ ok (codes "/c/blobs/sha256/ab")
unfolding put_stream split_digest cut is_hex put_blob ◌≟◌ create_temp commit blob_file join_path
    join split
put_ab = refl

put_wrong :
    (put_stream hash root io (codes "sha256:ab") (codes "cd") empty_disk).0
    ≡ err (digest_mismatch (codes "ab") (codes "cd"))
unfolding put_stream split_digest cut is_hex put_blob ◌≟◌ create_temp commit
put_wrong = refl

put_stream-IsIntact_example :
    IsIntact hash root (put_stream hash root io (codes "sha256:ab") (codes "ab") empty_disk).1
put_stream-IsIntact_example =
    put_stream-IsIntact hash root io (codes "sha256:ab") (codes "ab") empty_disk (λ e. cc e)
      io-IsNewTemp empty-IsIntact

put_stream-SameFiles_example :
    SameFiles empty_disk (put_stream hash root io (codes "sha256:ab") (codes "cd") empty_disk).1
put_stream-SameFiles_example =
    put_stream-SameFiles hash root io (codes "sha256:ab") (codes "cd") empty_disk io-IsNewTemp refl
      put_wrong

put_stream-Stored_example :
    (has root
        (codes "sha256:ab")
        (put_stream hash root io (codes "sha256:ab") (codes "ab") empty_disk).1
      ≡ true)
    × (verify hash root
          (codes "sha256:ab")
          true
          (put_stream hash root io (codes "sha256:ab") (codes "ab") empty_disk).1
        ≡ ok tt)
    × (blob_path root (codes "sha256:ab") ≡ some (codes "/c/blobs/sha256/ab"))
put_stream-Stored_example =
    put_stream-Stored hash root io (codes "sha256:ab") (codes "ab") (codes "/c/blobs/sha256/ab")
      empty_disk (λ e. cc e) io-IsNewTemp empty-IsIntact put_ab

abbrev no_digests : Digests
no_digests hex = false

nothing-Represents : Represents hash root empty_disk no_digests
nothing-Represents hex digits = refl

valid_ab : split_digest (codes "sha256:ab") ≡ some (sha256, codes "ab")
unfolding split_digest cut is_hex
valid_ab = refl

put_stream-Represents_example :
    Represents hash root (put_stream hash root io (codes "sha256:ab") (codes "ab") empty_disk).1 (
      added
        (codes "ab")
        (put_stream hash root io (codes "sha256:ab") (codes "ab") empty_disk).0
        no_digests)
put_stream-Represents_example =
    put_stream-Represents hash root io (codes "sha256:ab") sha256 (codes "ab") (codes "ab")
      empty_disk no_digests (λ e. cc e) io-IsNewTemp valid_ab nothing-Represents
