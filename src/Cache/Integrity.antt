-- ===== src/Cache/Integrity.antt =====
-- Every stored blob has the content that its name promises, and a failed write leaves no trace.
use dvm.Base.{Bytes, ≟_refl, true, Option, none, some, []}
use dvm.Base.{Result, ok, err, ok-injective, ◌≡◌, ◌≢◌, inl, inr, refl, sym, subst, ◌∙◌}
use dvm.Base.{Option-cases}
use dvm.Cache.Disk.{Entry, file, directory, Disk}
use dvm.Cache.Disk.{is_file_entry, SameFiles}
use dvm.Cache.Store.{CacheError, invalid_digest, split_digest, sha256}
use dvm.Cache.Store.{blob_path, has, Io, put_blob, put_stream, verify, check_content}
use dvm.Cache.BlobPaths.{IsDigits, split_digest-IsDigits, blob_file-injective}
use dvm.Cache.Commits.{
  IsIntact, IsNewTemp, SameFiles-refl, SameElsewhere, blob_file-IsOther, moved, moved_at,
  moved_file,
}
use dvm.Cache.Outcomes.{place, Outcome, put_blob-Outcome, put_blob-sha256}

module _ (sha : Bytes → Bytes) (root : Bytes) where
  put_stream-invalid :
      (io : Io) (digest content : Bytes) (d : Disk)
      → split_digest digest ≡ none
      → put_stream sha root io digest content d ≡ (err invalid_digest, d)
  unfolding put_stream
  put_stream-invalid io digest content d e = rw (e, put_stream) refl

  pub put_stream-valid :
      (io : Io) (digest content algo want : Bytes) (d : Disk)
      → split_digest digest ≡ some (algo, want)
      → put_stream sha root io digest content d ≡ put_blob sha root io algo want content d
  unfolding put_stream
  put_stream-valid io digest content algo want d e = rw (e, put_stream) refl

  SameFiles-IsIntact : (d d' : Disk) → SameFiles d d' → IsIntact sha root d → IsIntact sha root d'
  SameFiles-IsIntact d d' same ok_d hex c digits h = ok_d hex c digits ((same _ c).0 h)

  SameElsewhere-IsIntact :
      (temp : Option Bytes) (d d' : Disk)
      → IsNewTemp sha root temp d
      → SameElsewhere temp d d'
      → IsIntact sha root d
      → IsIntact sha root d'
  SameElsewhere-IsIntact temp d d' new same ok_d hex c digits h =
      ok_d hex c digits ((same _ c (blob_file-IsOther sha root temp d hex new digits)).0 h)

  moved-IsIntact :
      (tmp want content : Bytes) (m : Disk)
      → root ≢ []
      → IsDigits want
      → sha content ≡ want
      → IsIntact sha root m
      → IsIntact sha root (moved tmp (place sha root want) content m)
  moved-IsIntact tmp want content m r digits hash intact hex c d h =
      elim (moved_file tmp (place sha root want) content m _ c h) [
        | inl (there, same) ↦
            rw same (hash ∙ sym (blob_file-injective root sha256 hex want r d digits there))
        | inr old ↦ intact hex c d old
      ]

  Outcome-IsIntact :
      (io : Io) (want content : Bytes) (d : Disk) (o : Result CacheError Bytes × Disk)
      → root ≢ []
      → IsNewTemp sha root io.temp_name d
      → IsDigits want
      → IsIntact sha root d
      → Outcome sha root io want content d o
      → IsIntact sha root o.1
  Outcome-IsIntact io want content d (r, d') ne temp digits intact (inl (e, x, same)) =
      SameElsewhere-IsIntact io.temp_name d d' temp same.0 intact
  Outcome-IsIntact io want content d (r, d') ne temp digits intact (inr (inl (x, same, old))) =
      rw same intact
  Outcome-IsIntact io want content d (r, d') ne temp digits intact
        (inr (inr (x, hash, (tmp, m, same, new, e)))) =
      rw e (moved-IsIntact tmp want content m ne digits hash (SameFiles-IsIntact d m same intact))

  -- Whatever is written, and whatever fails on the way, every SHA-256 blob keeps the content that
  -- its name promises, if the root is not empty and the temporary file, if there is one, is new and
  -- not named like a blob.
  pub put_stream-IsIntact :
      (io : Io) (digest content : Bytes) (d : Disk)
      → root ≢ []
      → IsNewTemp sha root io.temp_name d
      → IsIntact sha root d
      → IsIntact sha root (put_stream sha root io digest content d).1
  put_stream-IsIntact io digest content d ne new intact =
      elim (Option-cases (split_digest digest)) [
        | inl e ↦ rw (put_stream-invalid io digest content d e) intact
        | inr ((algo, want), e) ↦ rw (put_stream-valid io digest content algo want d e) (
            Outcome-IsIntact io want content d _ ne new (split_digest-IsDigits digest algo want e)
              intact (put_blob-Outcome sha root io algo want content d new))
      ]

  -- The file at the place of the digest, after a successful write.
  Outcome-stored :
      (io : Io) (want content : Bytes) (d : Disk) (o : Result CacheError Bytes × Disk) {p : Bytes}
      → IsDigits want
      → Outcome sha root io want content d o
      → o.0 ≡ ok p
      → (p ≡ place sha root want) × (is_file_entry (o.1 (place sha root want)) ≡ true)
  Outcome-stored io want content d (r, d') n (inl (e, x, same)) h = absurd (cc (x, h))
  Outcome-stored io want content d (r, d') n (inr (inl (x, same, old))) h =
      (ok-injective (sym h ∙ x), rw same old)
  Outcome-stored io want content d (r, d') n (inr (inr (x, hash, (tmp, m, same, new, e)))) h = (
    ok-injective (sym h ∙ x),
    rw (e, moved_at tmp (place sha root want) content m (new.1 want n)) refl,
  )

  check_content-intact :
      (want : Bytes) (x : Option Entry)
      → is_file_entry x ≡ true
      → ((c : Bytes) → x ≡ some (file c) → sha c ≡ want)
      → check_content sha want true x ≡ ok tt
  unfolding check_content
  check_content-intact want none h intact = absurd cc
  check_content-intact want (some (file c)) h intact = rw (intact c refl, ≟_refl want) refl
  check_content-intact want (some directory) h intact = absurd cc

  verify-ok :
      (digest algo want : Bytes) (d : Disk)
      → split_digest digest ≡ some (algo, want)
      → algo ≡ sha256
      → IsDigits want
      → IsIntact sha root d
      → is_file_entry (d (place sha root want)) ≡ true
      → (has root digest d ≡ true)
        × (verify sha root digest true d ≡ ok tt)
        × (blob_path root digest ≡ some (place sha root want))
  unfolding has blob_path verify
  verify-ok digest algo want d e a digits intact f =
      rw (has, verify, blob_path, e, a)
        (f, check_content-intact want _ f (λ c. intact want c digits), refl)

  Outcome-err :
      (io : Io) (want content : Bytes) (d : Disk) (o : Result CacheError Bytes × Disk)
      {x : CacheError}
      → Outcome sha root io want content d o
      → o.0 ≡ err x
      → io.remove_ok ≡ true
      → SameFiles d o.1
  Outcome-err io want content d (r, d') (inl (e, y, same)) h can = same.1 can
  Outcome-err io want content d (r, d') (inr (inl (y, same, old))) h can = absurd (cc (y, h))
  Outcome-err io want content d (r, d') (inr (inr (y, _, _))) h can = absurd (cc (y, h))

  -- A write that fails leaves every file as it was, so no partial blob and no temporary file, if
  -- the temporary file is new and not named like a blob, and can be removed.
  pub put_stream-SameFiles :
      (io : Io) (digest content : Bytes) (d : Disk) {e : CacheError}
      → IsNewTemp sha root io.temp_name d
      → io.remove_ok ≡ true
      → (put_stream sha root io digest content d).0 ≡ err e
      → SameFiles d (put_stream sha root io digest content d).1
  put_stream-SameFiles io digest content d new can = elim (Option-cases (split_digest digest)) [
    | inl s ↦ rw (put_stream-invalid io digest content d s) (λ h. SameFiles-refl d)
    | inr ((algo, want), s) ↦ rw (put_stream-valid io digest content algo want d s) (λ h.
        Outcome-err io want content d _ (put_blob-Outcome sha root io algo want content d new) h
          can)
  ]

  put_stream-found :
      (io : Io) (digest content algo want : Bytes) (d : Disk) {p : Bytes}
      → split_digest digest ≡ some (algo, want)
      → IsNewTemp sha root io.temp_name d
      → (put_blob sha root io algo want content d).0 ≡ ok p
      → (p ≡ place sha root want)
        × (is_file_entry ((put_blob sha root io algo want content d).1 (place sha root want))
            ≡ true)
  put_stream-found io digest content algo want d e new h =
      Outcome-stored io want content d _ (split_digest-IsDigits digest algo want e)
        (put_blob-Outcome sha root io algo want content d new) h

  -- A write that succeeds leaves a blob that the cache has, that passes verification if it can be
  -- read, and that
  -- stands at the path the write returned, if the root is not empty, the blobs were intact before,
  -- and the temporary file, if there is one, is new and not named like a blob.
  pub put_stream-Stored :
      (io : Io) (digest content p : Bytes) (d : Disk)
      → root ≢ []
      → IsNewTemp sha root io.temp_name d
      → IsIntact sha root d
      → (put_stream sha root io digest content d).0 ≡ ok p
      → (has root digest (put_stream sha root io digest content d).1 ≡ true)
        × (verify sha root digest true (put_stream sha root io digest content d).1 ≡ ok tt)
        × (blob_path root digest ≡ some p)
  put_stream-Stored io digest content p d ne new intact h =
      elim (Option-cases (split_digest digest)) [
        | inl e ↦ absurd (cc (rw (put_stream-invalid io digest content d e) at h))
        | inr ((algo, want), e) ↦
            let h' = subst (λ o. o.0 ≡ ok p) (put_stream-valid io digest content algo want d e) h in
            let found = put_stream-found io digest content algo want d e new h' in
            let fine =
              verify-ok digest algo want (put_stream sha root io digest content d).1 e
                (put_blob-sha256 sha root io algo want content d h')
                (split_digest-IsDigits digest algo want e)
                (put_stream-IsIntact io digest content d ne new intact)
                (rw (put_stream-valid io digest content algo want d e) found.1) in
            (fine.0, fine.1, rw found.0 fine.2)
      ]
