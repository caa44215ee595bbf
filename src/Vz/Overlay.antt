-- ===== src/Vz/Overlay.antt =====
-- internal/vz/vz_darwin.go: the writable disk, the random hardware address, and whether the host's
-- system is new enough.
use Prim.Native.Nat.{bit_and, bit_or}
use dvm.Base.{
  ℕ, ◌+◌, ◌*◌, ◌-◌, Bytes, is_empty, leb, is_digit, Bool, true, false, not, ◌&&◌, Option, none,
  some, List, [], ◌∷◌, if◌then◌else◌,
}
use dvm.Base.{Result, ok, err}
use dvm.Cache.Disk.{Entry, file, Disk, write_file, remove}

-- The number that the leading digits of a version make. Go's `int` would wrap around from 2^63 on.
unfoldable pub major_of : Bytes → ℕ → ℕ
major_of [] n = n
major_of (c ∷ s) n = let rest = major_of s (n * 10 + (c - b'0')) in if is_digit c then rest else n

-- `Supported`, from the version of the system, if it is known
unfoldable pub supported : Option Bytes → Bool
supported none = true
supported (some version) = leb 12 (major_of version 0)

-- `randomMAC` from six random bytes
unfoldable pub random_mac : List ℕ → List ℕ
random_mac [] = []
random_mac (b ∷ bs) = bit_and (bit_or b 2) 254 ∷ bs

pub data OverlayError : Type 0 where
  unreadable_base : OverlayError
  create_failed : OverlayError
  copy_failed : OverlayError

-- Which calls succeed: the clone, the creation of the copy, and the copy with its sync.
pub record CloneIo : Type 0 where
  pub clone_ok : Bool
  pub create_ok : Bool
  pub copy_ok : Bool

-- A file with a content
abbrev pub is_filled : Option Entry → Bool
is_filled (some (file content)) = not (is_empty content)
is_filled _ = false

-- `copyFile` of a source that can be read or not
unfoldable pub copy_file :
    CloneIo → Option Bytes → Bytes → Disk → Result OverlayError (Unit {0}) × Disk
copy_file io none dst d = (err unreadable_base, d)
copy_file io (some content) dst d =
    if not io.create_ok
    then (err create_failed, d)
    else (if io.copy_ok then ok tt else err copy_failed, write_file dst content d)

unfoldable pub clone : CloneIo → Option Bytes → Bytes → Disk → Result OverlayError (Unit {0}) × Disk
clone io none dst d = copy_file io none dst d
clone io (some content) dst d =
    if io.clone_ok then (ok tt, write_file dst content d) else copy_file io (some content) dst d

-- `ensureOverlay`, from the content of the base
unfoldable pub ensure_overlay :
    CloneIo → Option Bytes → Bytes → Bool → Disk → Result OverlayError (Unit {0}) × Disk
ensure_overlay io base dst persist d =
    if persist && is_filled (d dst) then (ok tt, d) else clone io base dst (remove dst d)
