-- ===== src/Qemu/Fetching.antt =====
-- What a QEMU that `EnsureQEMU` yields has been checked for.
use dvm.Base.{
  Bytes, codes, ◌≟◌, ≟_iff, ◌==◌, to_lower, length, Bool, true, false, Option, none, some, ◌++◌,
  Result, ok, err,
}
use dvm.Base.{
  ◌≡◌, inl, inr, refl, sym, ap, ◌∙◌, subst, Bool-cases, Option-cases, arith, ok-injective,
}
use dvm.Host.{Host}
use dvm.Base.FilePath.{dir_path}
use dvm.Cache.Disk.{Disk, write_file, remove, rename_dir, mkdir_all, remove_all}
use dvm.Qemu.Tar.{Archive, Extracted}
use dvm.Qemu.Download.{
  DownloadError, DownloadIo, http_body, to_temp, download_to_temp, marker_path, checksum_from_sums,
}
use dvm.Qemu.Download.{
  verify_sha256, if_checked, checked_sum, move_in, after_unpack, install, verified,
}

to_temp-ok :
    (copy_ok : Bool) (tmp : Bytes) (body : Option Bytes) (d : Disk) {t c : Bytes}
    → (to_temp copy_ok tmp body d).0 ≡ ok (t, c)
    → (t ≡ tmp) × (body ≡ some c)
unfolding to_temp
to_temp-ok copy_ok tmp none d e = absurd (cc e)
to_temp-ok true tmp (some body) d e =
    let p = ok-injective e in (sym (ap (λ x. x.0) p), ap (λ x. some x.1) p)
to_temp-ok false tmp (some body) d e = absurd (cc e)

pub download_to_temp-ok :
    (h : Host) (io : DownloadIo) (url dir : Bytes) (d : Disk) {t c : Bytes}
    → (download_to_temp h io url dir d).0 ≡ ok (t, c)
    → (io.temp_name ≡ some t) × (http_body h url ≡ some c)
unfolding download_to_temp
download_to_temp-ok h io url dir d e = elim (Bool-cases io.cache_mkdir_ok) [
  | inr n ↦ absurd (cc (rw (download_to_temp, n) at e))
  | inl y ↦ elim (Option-cases io.temp_name) [
    | inl no_name ↦ absurd (cc (rw (download_to_temp, y, no_name) at e))
    | inr (tmp, named) ↦
        let (same, body) =
          to_temp-ok io.copy_ok tmp (http_body h url) (mkdir_all dir d)
            (rw (download_to_temp, y, named) at e) in
        (named ∙ ap some (sym same), body)
  ]
]

if_checked-ok :
    (want : Bytes) (r : Result DownloadError (Unit {0})) {w : Bytes}
    → if_checked want r ≡ ok w
    → (r ≡ ok tt) × (want ≡ w)
unfolding if_checked
if_checked-ok want (err e) h = absurd (cc h)
if_checked-ok want (ok u) h = (refl, ok-injective h)

module _ (sha : Bytes → Bytes) where
  -- The archive has the sum that the release lists for its name.
  abbrev pub HasSum : Bytes → Bytes → Option Bytes → Bytes → Type 0
  HasSum name content sums want =
      (text : Bytes) × (sums ≡ some text)
      × (checksum_from_sums text name ≡ some want)
      × (length want ≡ 64)
      × (to_lower (sha content) ≡ to_lower want)

  verify_sha256-ok :
      (content want : Bytes)
      → verify_sha256 sha content want ≡ ok tt
      → (length want ≡ 64) × (to_lower (sha content) ≡ to_lower want)
  unfolding verify_sha256
  verify_sha256-ok content want e = elim (Bool-cases (length want == 64)) [
    | inr n ↦ absurd (cc (rw (verify_sha256, n) at e))
    | inl y ↦ elim (Bool-cases (to_lower (sha content) ≟ to_lower want)) [
      | inr n ↦ absurd (cc (rw (verify_sha256, y, n) at e))
      | inl z ↦ (ground arith, (≟_iff _ _).0 z)
    ]
  ]

  pub checked_sum-ok :
      (sums : Option Bytes) (name content : Bytes) {want : Bytes}
      → checked_sum sha sums name content ≡ ok want
      → HasSum name content sums want
  unfolding checked_sum
  checked_sum-ok none name content e = absurd (cc e)
  checked_sum-ok (some text) name content {want} e =
      elim (Option-cases (checksum_from_sums text name)) [
        | inl n ↦ absurd (cc (rw (checked_sum, n) at e))
        | inr (w, found) ↦
            let (checked, same) =
              if_checked-ok w (verify_sha256 sha content w) (rw (checked_sum, found) at e) in
            let (long, sum) = verify_sha256-ok content w checked in
            subst (λ x. HasSum name content (some text) x) same (text, refl, found, long, sum)
      ]

  module _ (open_archive : Bytes → Option Archive) where
    -- A disk that ends with the marker of an installation
    abbrev pub IsMarked : Bytes → Bytes → Disk → Type 0
    IsMarked dest sum d = (m : Disk) × (d ≡ write_file (marker_path dest) (sum ++ codes "\n") m)

    move_in-ok :
        (io : DownloadIo) (stage dest bin sum : Bytes) (d : Disk) {b : Bytes}
        → (move_in sha open_archive io stage dest bin sum d).0 ≡ ok b
        → (bin ≡ b) × IsMarked dest sum (move_in sha open_archive io stage dest bin sum d).1
    unfolding move_in
    move_in-ok io stage dest bin sum d e = elim (Bool-cases io.parent_ok) [
      | inr n ↦ absurd (cc (rw (move_in, n) at e))
      | inl y ↦ elim (Bool-cases io.rename_ok) [
        | inr n ↦ absurd (cc (rw (move_in, y, n) at e))
        | inl z ↦ elim (Bool-cases io.marker_ok) [
          | inr n ↦ absurd (cc (rw (move_in, y, z, n) at e))
          | inl x ↦ (
            ok-injective (rw (move_in, y, z, x) at e),
            (
              rename_dir stage dest (mkdir_all (dir_path dest) (remove_all dest d)),
              rw (move_in, y, z, x) refl,
            ),
          )
        ]
      ]
    ]

    after_unpack-ok :
        (io : DownloadIo) (stage dest bin sum : Bytes) (x : Extracted) {b : Bytes}
        → (after_unpack sha open_archive io stage dest bin sum x).0 ≡ ok b
        → (bin ≡ b) × IsMarked dest sum (after_unpack sha open_archive io stage dest bin sum x).1
    unfolding after_unpack
    after_unpack-ok io stage dest bin sum (err f, d) e = absurd (cc e)
    after_unpack-ok io stage dest bin sum (ok u, d) e = move_in-ok io stage dest bin sum d e

    install-ok :
        (io : DownloadIo) (dest bin content sum : Bytes) (d : Disk) {b : Bytes}
        → (install sha open_archive io dest bin content sum d).0 ≡ ok b
        → (bin ≡ b) × IsMarked dest sum (install sha open_archive io dest bin content sum d).1
    unfolding install
    install-ok io dest bin content sum d e = after_unpack-ok io _ dest bin sum _ e

    -- The archive was verified and moved in, and its temporary file removed.
    abbrev pub IsInstalled : Bytes → Bytes → Bytes → Result DownloadError Bytes → Disk → Type 0
    IsInstalled tmp dest content r d =
        (sum : Bytes) × (r ≡ ok sum) × (m : Disk) × IsMarked dest sum m × (d ≡ remove tmp m)

    pub verified-ok :
        (io : DownloadIo) (tmp dest bin content : Bytes) (r : Result DownloadError Bytes) (d : Disk)
        {b : Bytes}
        → (verified sha open_archive io tmp dest bin content r d).0 ≡ ok b
        → (bin ≡ b)
          × IsInstalled tmp dest content r (verified sha open_archive io tmp dest bin content r d).1
    unfolding verified
    verified-ok io tmp dest bin content (err f) d e = absurd (cc e)
    verified-ok io tmp dest bin content (ok sum) d e =
        let (same, marked) = install-ok io dest bin content sum d e in
        (same, (sum, refl, _, marked, refl))
