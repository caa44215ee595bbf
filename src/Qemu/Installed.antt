-- ===== src/Qemu/Installed.antt =====
-- A QEMU that is ready: there already, or downloaded and verified; and a second call.
use dvm.Base.{ℕ, Bytes, codes, ◌≟◌, ≟_iff, ≟_refl, true, Option, some, ◌∷◌, ◌++◌, Result, ok, err}
use dvm.Base.{◌≡◌, ◌≢◌, ◌⊎◌, inl, inr, refl, sym, ap, ◌∙◌, Bool-cases, Option-cases, ok-injective}
use dvm.Host.{Host}
use dvm.Cache.Disk.{Disk, file, write_file, remove}
use dvm.Qemu.Tar.{Archive}
use dvm.Qemu.Download.{
  DownloadError, DownloadIo, http_body, fetch_text, tarball_name, release_url, install_dir,
  marker_path, bin_dir, is_present, host_tarball,
}
use dvm.Qemu.Download.{fetched_archive, ensure_for, ensure_qemu}
use dvm.Qemu.Fetching.{HasSum, download_to_temp-ok, checked_sum-ok, verified-ok}

module _ (sha : Bytes → Bytes) where
  module _ (open_archive : Bytes → Option Archive) where
    -- The archive that the release has for the platform was downloaded, its SHA-256 is the one that
    -- the release lists, and the marker of the installation holds this sum.
    abbrev pub IsFetched : Host → Bytes → Bytes → Disk → Type 0
    IsFetched h plat dest d =
        (content : Bytes) × (sum : Bytes) × (http_body h (release_url ++ (b'/' ∷ tarball_name plat))
          ≡ some content)
        × HasSum sha (tarball_name plat) content (fetch_text h (release_url ++ codes "/SHA256SUMS"))
            sum
        × (d (marker_path dest) ≡ some (file (sum ++ codes "\n")))

    written_stays :
        (p tmp content : Bytes) (m : Disk)
        → tmp ≢ p
        → remove tmp (write_file p content m) p ≡ some (file content)
    unfolding remove write_file
    written_stays p tmp content m ne = elim (Bool-cases (p ≟ tmp)) [
      | inl y ↦ absurd (ne (sym ((≟_iff p tmp).0 y)))
      | inr n ↦ rw (n, ≟_refl p) refl
    ]

    fetched_archive-ok :
        (h : Host) (io : DownloadIo) (plat dest bin : Bytes)
        (x : Result DownloadError (Bytes × Bytes) × Disk) {b : Bytes}
        → ((t c : Bytes)
            → x.0 ≡ ok (t, c)
            → (t ≢ marker_path dest)
              × (http_body h (release_url ++ (b'/' ∷ tarball_name plat)) ≡ some c))
        → (fetched_archive sha open_archive h io (tarball_name plat) dest bin x).0 ≡ ok b
        → (bin ≡ b)
          × IsFetched h plat dest
              (fetched_archive sha open_archive h io (tarball_name plat) dest bin x).1
    unfolding fetched_archive
    fetched_archive-ok h io plat dest bin (err f, d) got e = absurd (cc e)
    fetched_archive-ok h io plat dest bin (ok (tmp, content), d) got e =
        let (ne, body) = got tmp content refl in
        let (same, (sum, checked, m, (m', marked), removed)) =
          verified-ok sha open_archive io tmp dest bin content _ d e in
        (
          same,
          (
            content,
            sum,
            body,
            checked_sum-ok sha _ (tarball_name plat) content checked,
            ap (λ x. x (marker_path dest)) removed
                ∙ (ap (λ x. remove tmp x (marker_path dest)) marked
                    ∙ written_stays (marker_path dest) tmp (sum ++ codes "\n") m' ne),
          ),
        )

    -- QEMU was there and nothing changed, or it is fetched.
    abbrev pub IsReady : Host → Bytes → Bytes → Disk → Disk → Type 0
    IsReady h plat dest d d' =
        (is_present (d (marker_path dest)) ≡ true) × (d' ≡ d) ⊎ IsFetched h plat dest d'

    ensure_for-ok :
        (h : Host) (io : DownloadIo) (root plat : Bytes) (d : Disk) {b : Bytes}
        → io.temp_name ≢ some (marker_path (install_dir root plat))
        → (ensure_for sha open_archive h io root plat d).0 ≡ ok b
        → (bin_dir h (install_dir root plat) ≡ b)
          × IsReady h plat
              (install_dir root plat)
              d
              (ensure_for sha open_archive h io root plat d).1
    unfolding ensure_for
    ensure_for-ok h io root plat d ne e =
        let dest = install_dir root plat in
        elim (Bool-cases (is_present (d (marker_path dest)))) [
          | inl y ↦ (ok-injective (rw (ensure_for, y) at e), inl (y, rw (ensure_for, y) refl))
          | inr n ↦
              let (same, fetched) =
                fetched_archive-ok h io plat dest (bin_dir h dest) _
                  (λ t c x.
                    let (named, body) = download_to_temp-ok h io _ root d x in
                    (λ q. ne (named ∙ ap some q), body))
                  (rw (ensure_for, n) at e) in
              (same, inr (rw (ensure_for, n) fetched))
        ]

    -- QEMU is ready only where the release has one for the host, in the directory for it; and then it
    -- was there, with nothing changed, or its archive was downloaded with status 200 and has the
    -- SHA-256 that the release lists for its name, 64 digits up to letter case, which the marker
    -- holds. The temporary file has another name than the marker.
    pub ensure_qemu-IsReady :
        (h : Host) (io : DownloadIo) (root : Bytes) (d : Disk) {b : Bytes}
        → ((plat : Bytes)
            → host_tarball h ≡ some plat
            → io.temp_name ≢ some (marker_path (install_dir root plat)))
        → (ensure_qemu sha open_archive h io root d).0 ≡ ok b
        → (plat : Bytes) × (host_tarball h ≡ some plat)
          × (bin_dir h (install_dir root plat) ≡ b)
          × IsReady h plat (install_dir root plat) d (ensure_qemu sha open_archive h io root d).1
    unfolding ensure_qemu
    ensure_qemu-IsReady h io root d ne e = elim (Option-cases (host_tarball h)) [
      | inl n ↦ absurd (cc (rw (ensure_qemu, n) at e))
      | inr (plat, y) ↦
          let (same, ready) =
            ensure_for-ok h io root plat d (ne plat y) (rw (ensure_qemu, y) at e) in
          (plat, y, same, rw (ensure_qemu, y) ready)
    ]

    marker_there :
        (h : Host) (plat dest : Bytes) (d d' : Disk)
        → IsReady h plat dest d d'
        → is_present (d' (marker_path dest)) ≡ true
    marker_there h plat dest d d' (inl (there, same)) = rw same there
    marker_there h plat dest d d' (inr (content, sum, body, checked, marker)) = rw marker refl

    ensure_for_there :
        (h : Host) (io : DownloadIo) (root plat : Bytes) (d : Disk)
        → is_present (d (marker_path (install_dir root plat))) ≡ true
        → ensure_for sha open_archive h io root plat d ≡ (ok (bin_dir h (install_dir root plat)), d)
    unfolding ensure_for
    ensure_for_there h io root plat d there = rw there refl

    ensure_qemu-ensure_for :
        (h : Host) (io : DownloadIo) (root plat : Bytes) (d : Disk)
        → host_tarball h ≡ some plat
        → ensure_qemu sha open_archive h io root d ≡ ensure_for sha open_archive h io root plat d
    unfolding ensure_qemu
    ensure_qemu-ensure_for h io root plat d e = rw (ensure_qemu, e) refl

    host_tarball_same :
        (h : Host) (get : Bytes → Option (ℕ × Bytes))
        → host_tarball (record h { http_get = get }) ≡ host_tarball h
    unfolding host_tarball dvm.Platform.target
    host_tarball_same h get = refl

    bin_dir_same :
        (h : Host) (get : Bytes → Option (ℕ × Bytes)) (dest : Bytes)
        → bin_dir (record h { http_get = get }) dest ≡ bin_dir h dest
    unfolding bin_dir
    bin_dir_same h get dest = refl

    -- Behind a call that made QEMU ready, a further call yields the same directory, whatever the
    -- network and the system do then, and leaves the disk alone.
    pub ensure_qemu-ensure_qemu :
        (h : Host) (get : Bytes → Option (ℕ × Bytes)) (io later : DownloadIo) (root : Bytes)
        (d : Disk) {b : Bytes}
        → ((plat : Bytes)
            → host_tarball h ≡ some plat
            → io.temp_name ≢ some (marker_path (install_dir root plat)))
        → (ensure_qemu sha open_archive h io root d).0 ≡ ok b
        → ensure_qemu sha open_archive
            (record h { http_get = get })
            later
            root
            (ensure_qemu sha open_archive h io root d).1
          ≡ (ok b, (ensure_qemu sha open_archive h io root d).1)
    ensure_qemu-ensure_qemu h get io later root d ne e =
        let (plat, has, same, ready) = ensure_qemu-IsReady h io root d ne e in
        let d' = (ensure_qemu sha open_archive h io root d).1 in
        let h' : Host = record h { http_get = get } in
        ensure_qemu-ensure_for h' later root plat d' (host_tarball_same h get ∙ has)
        ∙ (ensure_for_there h' later root plat d'
              (marker_there h plat (install_dir root plat) d d' ready)
            ∙ ap (λ x. (ok x, d')) (bin_dir_same h get (install_dir root plat) ∙ same))
