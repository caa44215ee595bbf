-- ===== src/Cache/Refinement.antt =====
-- The cache as a set of digests: its disk implements the set.
use dvm.Base.{
  Bytes, ◌≟◌, ≟_iff, ≟_refl, Bool, true, Option, none, some, [], if◌then◌else◌, Result, ok, err,
}
use dvm.Base.{◌≡◌, ◌≢◌, ◌↔◌, inl, inr, refl, sym, subst, ◌∙◌, ap, Bool-cases, arith}
use dvm.Cache.Disk.{
  Entry, file, directory, Disk, write_file, remove, rename, is_file_entry, SameFiles,
}
use dvm.Cache.Store.{CacheError, split_digest, sha256, Io, put_blob, put_stream}
use dvm.Cache.BlobPaths.{IsDigits, split_digest-IsDigits, blob_file-injective}
use dvm.Cache.Commits.{IsNewTemp, SameElsewhere, blob_file-IsOther, moved, moved_at}
use dvm.Cache.Outcomes.{place, Outcome, put_blob-Outcome}
use dvm.Cache.Integrity.{put_stream-valid}

-- A set of digests, as its characteristic function
abbrev pub Digests : Type 0
Digests = Bytes → Bool

abbrev pub add : Bytes → Digests → Digests
add hex s q = if q ≟ hex then true else s q

-- What a write is to do: the digest is in the set from then on, or there is an error and nothing
-- has changed.
abbrev pub added : Bytes → Result CacheError Bytes → Digests → Digests
added hex (ok p) s = add hex s
added hex (err e) s = s

is_file_same :
    (x y : Option Entry)
    → ((c : Bytes) → (y ≡ some (file c)) ↔ (x ≡ some (file c)))
    → is_file_entry y ≡ is_file_entry x
is_file_same none none h = refl
is_file_same none (some directory) h = refl
is_file_same none (some (file c)) h = absurd (cc ((h c).0 refl))
is_file_same (some directory) none h = refl
is_file_same (some directory) (some directory) h = refl
is_file_same (some directory) (some (file c)) h = absurd (cc ((h c).0 refl))
is_file_same (some (file c)) none h = absurd (cc ((h c).1 refl))
is_file_same (some (file c)) (some directory) h = absurd (cc ((h c).1 refl))
is_file_same (some (file c)) (some (file b)) h = refl

moved_elsewhere :
    (tmp final content : Bytes) (m : Disk) (q : Bytes)
    → q ≢ tmp
    → q ≢ final
    → moved tmp final content m q ≡ m q
unfolding remove rename write_file
moved_elsewhere tmp final content m q nt nf = ground (arith, ≟_iff q tmp, ≟_iff q final)

module _ (sha : Bytes → Bytes) (root : Bytes) where
  -- The blobs on the disk are those of the set.
  abbrev pub Represents : Disk → Digests → Type 0
  Represents d s = (hex : Bytes) → IsDigits hex → is_file_entry (d (place sha root hex)) ≡ s hex

  SameFiles-Represents :
      (d d' : Disk) (s : Digests) → SameFiles d d' → Represents d s → Represents d' s
  SameFiles-Represents d d' s same r hex digits =
      is_file_same (d (place sha root hex)) (d' (place sha root hex))
        (λ c. same (place sha root hex) c)
      ∙ r hex digits

  moved-Represents :
      (tmp want content : Bytes) (m : Disk) (s : Digests)
      → root ≢ []
      → IsDigits want
      → ((hex : Bytes) → IsDigits hex → tmp ≢ place sha root hex)
      → Represents m s
      → Represents (moved tmp (place sha root want) content m) (add want s)
  moved-Represents tmp want content m s full digits new r hex dh = elim (Bool-cases (hex ≟ want)) [
    | inl y ↦
        subst
          (λ x.
            is_file_entry (moved tmp (place sha root want) content m (place sha root x))
            ≡ add want s x)
          (sym ((≟_iff hex want).0 y))
          (ap is_file_entry (moved_at tmp (place sha root want) content m (new want digits))
            ∙ rw (≟_refl want) refl)
    | inr n ↦
        ap is_file_entry (
          moved_elsewhere tmp (place sha root want) content m (place sha root hex)
            (λ e. new hex dh (sym e))
            (λ e.
              cc (
                (≟_iff hex want).1 (blob_file-injective root sha256 hex want full dh digits e),
                n,
              )))
        ∙ (r hex dh ∙ rw n refl)
  ]

  SameElsewhere-Represents :
      (temp : Option Bytes) (d d' : Disk) (s : Digests)
      → IsNewTemp sha root temp d
      → SameElsewhere temp d d'
      → Represents d s
      → Represents d' s
  SameElsewhere-Represents temp d d' s new same r hex digits =
      is_file_same (d (place sha root hex)) (d' (place sha root hex))
        (λ c. same (place sha root hex) c (blob_file-IsOther sha root temp d hex new digits))
      ∙ r hex digits

  there-Represents :
      (want : Bytes) (d : Disk) (s : Digests)
      → IsDigits want
      → is_file_entry (d (place sha root want)) ≡ true
      → Represents d s
      → Represents d (add want s)
  there-Represents want d s digits there r hex dh = elim (Bool-cases (hex ≟ want)) [
    | inl y ↦ rw y (ap (λ x. is_file_entry (d (place sha root x))) ((≟_iff hex want).0 y) ∙ there)
    | inr n ↦ rw n (r hex dh)
  ]

  Outcome-Represents :
      (io : Io) (want content : Bytes) (d : Disk) (s : Digests) (o : Result CacheError Bytes × Disk)
      → root ≢ []
      → IsNewTemp sha root io.temp_name d
      → IsDigits want
      → Outcome sha root io want content d o
      → Represents d s
      → Represents o.1 (added want o.0 s)
  Outcome-Represents io want content d s (r, d') full temp digits (inl (e, x, same)) rep =
      subst (λ y. Represents d' (added want y s)) (sym x)
        (SameElsewhere-Represents io.temp_name d d' s temp same.0 rep)
  Outcome-Represents io want content d s (r, d') full temp digits (inr (inl (x, same, there))) rep =
      subst (λ y. Represents d' (added want y s)) (sym x)
        (subst (λ y. Represents y (add want s)) (sym same)
          (there-Represents want d s digits there rep))
  Outcome-Represents io want content d s (r, d') full temp digits
        (inr (inr (x, hash, (tmp, m, same, new, e)))) rep =
      subst (λ y. Represents d' (added want y s)) (sym x)
        (subst (λ y. Represents y (add want s)) (sym e)
          (moved-Represents tmp want content m s full digits new.1
            (SameFiles-Represents d m s same rep)))

  -- A cache whose blobs are those of a set of digests stays one: after a write of a digest that can
  -- be read its blobs are those of the set with the digest added, or, where the write returns an
  -- error, those of the same set; if the root is not empty and the temporary file, if there is one,
  -- is new and not named like a blob.
  pub put_stream-Represents :
      (io : Io) (digest algo want content : Bytes) (d : Disk) (s : Digests)
      → root ≢ []
      → IsNewTemp sha root io.temp_name d
      → split_digest digest ≡ some (algo, want)
      → Represents d s
      → Represents
          (put_stream sha root io digest content d).1
          (added want (put_stream sha root io digest content d).0 s)
  put_stream-Represents io digest algo want content d s full new valid rep =
      rw (put_stream-valid sha root io digest content algo want d valid) (
        Outcome-Represents io want content d s (put_blob sha root io algo want content d) full new
          (split_digest-IsDigits digest algo want valid)
          (put_blob-Outcome sha root io algo want content d new) rep)
