-- ===== src/Qemu/Download.antt =====
-- internal/qemu/download.go: the static QEMU of the release, fetched once. `sha` is the hexadecimal
-- SHA-256, and `open_archive` opens a compressed archive.
-- A file that was just downloaded can be read again.
use dvm.Base.{take, ◌^◌}
use dvm.Base.{
  Bytes, codes, ◌≟◌, ◌==◌, fields, split, to_lower, length, Bool, true, false, not, ◌&&◌, Option,
  none, some, List, [], ◌∷◌, ◌++◌,
}
use dvm.Base.{if◌then◌else◌, Result, ok, err}
use dvm.Base.FilePath.{join_path, dir_path}
use dvm.Host.{Host}
use dvm.Platform.{target}
use dvm.Cache.Disk.{Entry, Disk, write_file, remove, mkdir_all, remove_all, rename_dir}
use dvm.Qemu.Tar.{Archive, ExtractError, unreadable_archive, ExtractIo, Extracted, extract}

abbrev pub asset_release : Bytes
asset_release = codes "v0.0.1"

abbrev pub qemu_version : Bytes
qemu_version = codes "11.0.1"

unfoldable pub host_tarball : Host → Option Bytes
host_tarball h =
    if target h ≟ codes "darwin/arm64"
    then some (codes "darwin-arm64")
    else if target h ≟ codes "linux/amd64"
    then some (codes "linux-amd64")
    else if target h ≟ codes "linux/arm64"
    then some (codes "linux-arm64")
    else if target h ≟ codes "windows/amd64"
    then some (codes "windows-amd64")
    else none

abbrev pub last_is : Bytes → List Bytes → Bool
last_is name [] = false
last_is name (f ∷ []) = f ≟ name
last_is name (f ∷ g ∷ more) = last_is name (g ∷ more)

-- A line of a sum and a name, of which the name is the last field.
unfoldable pub sum_of_line : Bytes → List Bytes → Option Bytes
sum_of_line name [] = none
sum_of_line name (f ∷ []) = none
sum_of_line name (f ∷ g ∷ more) =
    if last_is name (g ∷ more) && (length f == 64) then some (to_lower f) else none

unfoldable pub first_sum : Bytes → List Bytes → Option Bytes
first_sum name [] = none
first_sum name (line ∷ lines) =
    let rest = first_sum name lines in
    elim (sum_of_line name (fields line)) [ some sum ↦ some sum | none ↦ rest ]

-- `checksumFromSums`; `none` is its empty text.
unfoldable pub checksum_from_sums : Bytes → Bytes → Option Bytes
checksum_from_sums sums name = first_sum name (split sums b'\n')

pub data DownloadError : Type 0 where
  no_prebuilt : DownloadError
  download_failed : DownloadError
  sums_failed : DownloadError
  no_checksum : DownloadError
  bad_checksum : DownloadError
  checksum_mismatch : Bytes → Bytes → DownloadError
  extract_failed : ExtractError → DownloadError
  install_failed : DownloadError

-- What the operating system does: the temporary file's name, if it can be made, and which of the
-- other calls succeed.
pub record DownloadIo : Type 0 where
  pub temp_name : Option Bytes
  pub cache_mkdir_ok : Bool
  pub copy_ok : Bool
  pub extract_io : ExtractIo
  pub parent_ok : Bool
  pub rename_ok : Bool
  pub marker_ok : Bool

-- `httpGet`: the body of a reply with status 200
unfoldable pub http_body : Host → Bytes → Option Bytes
http_body h url = elim (h.http_get url) [
  | none ↦ none
  | some (status, body) ↦ if status == 200 then some body else none
]

-- `fetchText` reads a mebibyte at most.
unfoldable pub fetch_text : Host → Bytes → Option Bytes
fetch_text h url = elim (http_body h url) [ none ↦ none | some body ↦ some (take (2 ^ 20) body) ]

unfoldable pub to_temp :
    Bool → Bytes → Option Bytes → Disk → Result DownloadError (Bytes × Bytes) × Disk
to_temp copy_ok tmp none d = (err download_failed, remove tmp d)
to_temp copy_ok tmp (some body) d =
    if copy_ok then (ok (tmp, body), write_file tmp body d) else (err download_failed, remove tmp d)

-- `downloadToTemp`: the file's path and its content
unfoldable pub download_to_temp :
    Host → DownloadIo → Bytes → Bytes → Disk → Result DownloadError (Bytes × Bytes) × Disk
download_to_temp h io url dir d =
    if not io.cache_mkdir_ok then (err download_failed, d) else elim io.temp_name [
      | none ↦ (err download_failed, mkdir_all dir d)
      | some tmp ↦ to_temp io.copy_ok tmp (http_body h url) (mkdir_all dir d)
    ]

unfoldable pub tarball_name : Bytes → Bytes
tarball_name plat = codes "qemu-" ++ (plat ++ (b'-' ∷ (qemu_version ++ codes ".tar.gz")))

abbrev pub release_url : Bytes
release_url = codes "https://github.com/spurin/dvm/releases/download/" ++ asset_release

unfoldable pub install_dir : Bytes → Bytes → Bytes
install_dir cache_root plat = join_path (cache_root ∷ codes "qemu" ∷ asset_release ∷ plat ∷ [])

unfoldable pub marker_path : Bytes → Bytes
marker_path dest = join_path (dest ∷ codes ".extracted" ∷ [])

unfoldable pub bin_dir : Host → Bytes → Bytes
bin_dir h dest = if h.goos ≟ codes "windows" then dest else join_path (dest ∷ codes "bin" ∷ [])

abbrev pub is_present : Option Entry → Bool
is_present none = false
is_present (some e) = true

unfoldable pub if_checked : Bytes → Result DownloadError (Unit {0}) → Result DownloadError Bytes
if_checked want (err e) = err e
if_checked want (ok u) = ok want

module _ (sha : Bytes → Bytes) where
  -- `verifySHA256` of the file with this content
  unfoldable pub verify_sha256 : Bytes → Bytes → Result DownloadError (Unit {0})
  verify_sha256 content want =
      if not (length want == 64)
      then err bad_checksum
      else if not (to_lower (sha content) ≟ to_lower want)
      then err (checksum_mismatch (sha content) want)
      else ok tt

  -- The sum that the release lists for the archive, once the archive has it.
  unfoldable pub checked_sum : Option Bytes → Bytes → Bytes → Result DownloadError Bytes
  checked_sum none name content = err sums_failed
  checked_sum (some sums) name content = elim (checksum_from_sums sums name) [
    | none ↦ err no_checksum
    | some want ↦ if_checked want (verify_sha256 content want)
  ]

  module _ (open_archive : Bytes → Option Archive) where
    unfoldable pub unpack : ExtractIo → Bytes → Option Archive → Disk → Extracted
    unpack io stage none d = (err unreadable_archive, d)
    unpack io stage (some a) d = extract io stage a d

    unfoldable pub move_in :
        DownloadIo → Bytes → Bytes → Bytes → Bytes → Disk → Result DownloadError Bytes × Disk
    move_in io stage dest bin sum d =
        if not io.parent_ok
        then (err install_failed, remove_all dest d)
        else if not io.rename_ok
        then (err install_failed, mkdir_all (dir_path dest) (remove_all dest d))
        else if not io.marker_ok
        then (
          err install_failed,
          rename_dir stage dest (mkdir_all (dir_path dest) (remove_all dest d)),
        )
        else (
          ok bin,
          write_file (marker_path dest) (sum ++ codes "\n")
              (rename_dir stage dest (mkdir_all (dir_path dest) (remove_all dest d))),
        )

    unfoldable pub after_unpack :
        DownloadIo → Bytes → Bytes → Bytes → Bytes → Extracted → Result DownloadError Bytes × Disk
    after_unpack io stage dest bin sum (err e, d) = (err (extract_failed e), remove_all stage d)
    after_unpack io stage dest bin sum (ok u, d) = move_in io stage dest bin sum d

    -- From the verified archive on
    unfoldable pub install :
        DownloadIo → Bytes → Bytes → Bytes → Bytes → Disk → Result DownloadError Bytes × Disk
    install io dest bin content sum d = after_unpack io (dest ++ codes ".tmp") dest bin sum (
        unpack io.extract_io (dest ++ codes ".tmp") (open_archive content)
          (remove_all (dest ++ codes ".tmp") d))

    -- The deferred removal of the downloaded file ends every way out.
    unfoldable pub verified :
        DownloadIo
        → Bytes
        → Bytes
        → Bytes
        → Bytes
        → Result DownloadError Bytes
        → Disk
        → Result DownloadError Bytes × Disk
    verified io tmp dest bin content (err e) d = (err e, remove tmp d)
    verified io tmp dest bin content (ok sum) d =
        let done = install io dest bin content sum d in (done.0, remove tmp done.1)

    unfoldable pub fetched_archive :
        Host
        → DownloadIo
        → Bytes
        → Bytes
        → Bytes
        → Result DownloadError (Bytes × Bytes) × Disk
        → Result DownloadError Bytes × Disk
    fetched_archive h io name dest bin (err e, d) = (err e, d)
    fetched_archive h io name dest bin (ok (tmp, content), d) =
        verified io tmp dest bin content
          (checked_sum (fetch_text h (release_url ++ codes "/SHA256SUMS")) name content) d

    unfoldable pub ensure_for :
        Host → DownloadIo → Bytes → Bytes → Disk → Result DownloadError Bytes × Disk
    ensure_for h io cache_root plat d =
        let dest = install_dir cache_root plat in
        if is_present (d (marker_path dest))
        then (ok (bin_dir h dest), d)
        else fetched_archive h io (tarball_name plat) dest (bin_dir h dest)
            (download_to_temp h io (release_url ++ (b'/' ∷ tarball_name plat)) cache_root d)

    -- `EnsureQEMU`
    unfoldable pub ensure_qemu :
        Host → DownloadIo → Bytes → Disk → Result DownloadError Bytes × Disk
    ensure_qemu h io cache_root d = elim (host_tarball h) [
      | none ↦ (err no_prebuilt, d)
      | some plat ↦ ensure_for h io cache_root plat d
    ]
