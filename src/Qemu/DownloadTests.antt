-- ===== src/Qemu/DownloadTests.antt =====
-- Tests of internal/qemu/download.go, and its theorems at concrete inputs.
use dvm.Qemu.Tar.{Archive, ExtractIo, extract, regular, unsafe_path}
use dvm.Qemu.Confined.{extract-SameOutside}
use dvm.Qemu.Download.{DownloadIo, ensure_qemu}
use dvm.Cache.Disk.{Disk, file, is_below}
use dvm.Base.FilePath.{clean, parts}
use dvm.Qemu.Installed.{IsReady, ensure_qemu-IsReady}
use dvm.Qemu.Download.{host_tarball, install_dir, marker_path, bin_dir}
use dvm.Base.{◌++◌, Option, Bool, sym, ℕ, ap, ◌∙◌}
use dvm.Host.{Host}
use dvm.Base.{has_suffix, err, ◌≟◌, if◌then◌else◌, ◌↔◌}
use dvm.Base.{Bytes, codes, ◌≟◌, split, itoa, pos, true, none, some}
use dvm.Base.{List, [], ◌∷◌, Elem, IsNodup, ok, err, ◌≡◌, ◌≢◌, ◌↔◌}
use dvm.Base.{◌⊎◌, refl, arith, join}
use dvm.Samples.{linux_host}

-- An archive with names that point elsewhere.
abbrev sly_archive : Archive
sly_archive = record {
  entries =
      record { name = codes "/etc/passwd"; kind = regular; content = codes "x"; readable = true }
      ∷ record {
        name = codes "a/../../../etc/passwd";
        kind = regular;
        content = codes "y";
        readable = true;
      }
      ∷ [];
  complete = true;
}

abbrev extract_io : ExtractIo
extract_io = record { mkdir_ok = λ p. true; create_ok = λ p. true }

abbrev old_disk : Disk
old_disk p = if p ≟ codes "/etc/passwd" then some (file (codes "root")) else none

sly_archive_refused :
    (extract extract_io (codes "/c/q.tmp") sly_archive old_disk).0
    ≡ err (unsafe_path (codes "a/../../../etc/passwd"))
unfolding extract dvm.Qemu.Tar.put_entries dvm.Qemu.Tar.and_then dvm.Qemu.Tar.put_entry
    dvm.Qemu.Tar.place_of ◌≟◌ clean dvm.Base.has_prefix dvm.Qemu.Tar.put_kind dvm.Qemu.Tar.put_file
    split join
sly_archive_refused = refl

dest_parts : parts (codes "/c/q.tmp") ≡ codes "q.tmp" ∷ codes "c" ∷ []
unfolding parts split ◌≟◌
dest_parts = refl

extract-SameOutside_example :
    ((extract extract_io (codes "/c/q.tmp") sly_archive old_disk).1 (codes "/etc/passwd")
      ≡ some (file (codes "root")))
    ↔ (old_disk (codes "/etc/passwd") ≡ some (file (codes "root")))
unfolding is_below clean ◌≟◌ join split dvm.Base.has_prefix
extract-SameOutside_example =
    extract-SameOutside extract_io (codes "/c/q.tmp") sly_archive old_disk (codes "/etc/passwd")
      (codes "root") (λ e. cc (e, dest_parts)) refl

-- A release whose archive has the one sum that there is.
abbrev the_sum : Bytes
the_sum = codes "aaaaaaaaaaaaaaaaaaaaaaaaaaaaaaaaaaaaaaaaaaaaaaaaaaaaaaaaaaaaaaaa"

abbrev sums : Bytes
sums = the_sum ++ codes "  qemu-linux-amd64-11.0.1.tar.gz\n"

abbrev release_host : Host
release_host = record linux_host {
  http_get =
      λ u. if has_suffix u (codes "SHA256SUMS") then some (200, sums) else some (200, codes "tgz");
}

abbrev download_io : DownloadIo
download_io = record {
  temp_name = some (codes "/c/qemu-dl-1.tar.gz");
  cache_mkdir_ok = true;
  copy_ok = true;
  extract_io = extract_io;
  parent_ok = true;
  rename_ok = true;
  marker_ok = true;
}

abbrev no_files : Disk
no_files p = none

abbrev one_sum : Bytes → Bytes
one_sum s = the_sum

abbrev read_archive : Bytes → Option Archive
read_archive s = some (record { entries = []; complete = true })

abbrev qemu_bin : Bytes
qemu_bin = codes "/c/qemu/v0.0.1/linux-amd64/bin"

qemu_fetched :
    (ensure_qemu one_sum read_archive release_host download_io (codes "/c") no_files).0
    ≡ ok qemu_bin
unfolding ensure_qemu host_tarball ◌≟◌ dvm.Platform.target dvm.Qemu.Download.ensure_for
    dvm.Qemu.Download.fetched_archive dvm.Qemu.Download.download_to_temp dvm.Qemu.Download.to_temp
    dvm.Qemu.Download.http_body has_suffix dvm.Qemu.Download.tarball_name dvm.Qemu.Download.verified
    dvm.Qemu.Download.checked_sum dvm.Qemu.Download.fetch_text dvm.Qemu.Download.checksum_from_sums
    dvm.Qemu.Download.first_sum split dvm.Qemu.Download.sum_of_line clean
    dvm.Base.FilePath.join_path dvm.Base.fields dvm.Base.has_prefix join dvm.Base.to_lower
    dvm.Qemu.Download.after_unpack bin_dir dvm.Qemu.Download.if_checked dvm.Qemu.Download.install
    install_dir marker_path dvm.Qemu.Download.move_in dvm.Qemu.Download.unpack
    dvm.Qemu.Download.verify_sha256 dvm.Qemu.Tar.extract dvm.Qemu.Tar.put_entries
    dvm.Cache.Disk.mkdir_all
qemu_fetched = refl

its_platform : host_tarball release_host ≡ some (codes "linux-amd64")
unfolding host_tarball ◌≟◌ dvm.Platform.target
its_platform = refl

its_marker :
    marker_path (install_dir (codes "/c") (codes "linux-amd64"))
    ≡ codes "/c/qemu/v0.0.1/linux-amd64/.extracted"
unfolding marker_path dvm.Base.FilePath.join_path install_dir join split ◌≟◌
its_marker = refl

abbrev place : Option Bytes → Option Bytes
place none = none
place (some plat) = some (marker_path (install_dir (codes "/c") plat))

abbrev is_marker : Option Bytes → Bool
is_marker none = true
is_marker (some p) = p ≟ codes "/c/qemu/v0.0.1/linux-amd64/.extracted"

other_name :
    (plat : Bytes)
    → host_tarball release_host ≡ some plat
    → download_io.temp_name ≢ some (marker_path (install_dir (codes "/c") plat))
unfolding ◌≟◌
other_name plat h e =
    cc (ap is_marker (e ∙ (sym (ap place (sym its_platform ∙ h)) ∙ ap some its_marker)))

ensure_qemu-IsReady_example :
    (plat : Bytes) × (host_tarball release_host ≡ some plat)
    × (bin_dir release_host (install_dir (codes "/c") plat) ≡ qemu_bin)
    × IsReady one_sum read_archive release_host plat
        (install_dir (codes "/c") plat)
        no_files
        (ensure_qemu one_sum read_archive release_host download_io (codes "/c") no_files).1
ensure_qemu-IsReady_example =
    ensure_qemu-IsReady one_sum read_archive release_host download_io (codes "/c") no_files
      other_name qemu_fetched
