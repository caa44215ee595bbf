-- ===== src/Oci/Pulling.antt =====
-- What a pull checks and what it leaves in the cache.
use dvm.Base.{
  Bytes, codes, ◌≟◌, ≟_iff, ≟_refl, is_empty, All, true, false, Bool-cases, Option-cases,
}
use dvm.Base.{
  some, List, [], ◌∷◌, ◌++◌, Result, ok, err, ok-injective, ◌≡◌, ◌≢◌, ◌↔◌, inl, inr, refl, ◌∙◌, ap,
  Result-cases,
}
use dvm.Component.{Component}
use dvm.Cache.{CacheError, Io, has, blob_path, put_stream}
use dvm.Cache.Disk.{Disk}
use dvm.Cache.Integrity.{put_stream-IsIntact, put_stream-Stored}
use dvm.Cache.Commits.{IsIntact, IsNewTemp}
use dvm.Oci.Manifest.{Descriptor, title_of, sidecar_sha256}
use dvm.Oci.Pull.{
  Repository, Registry, check_sum, verify_sidecar, component_of, find_layer, path_or_empty,
  store_found, store_layer, fetch_component,
}

check_sum_iff :
    (digest content : Bytes)
    → is_empty (sidecar_sha256 content) ≡ false
    → (check_sum digest (some content) ≡ ok tt)
      ↔ ((codes "sha256:" ++ sidecar_sha256 content) ≡ digest)
unfolding check_sum
check_sum_iff digest content e = (
  λ h. elim (Bool-cases ((codes "sha256:" ++ sidecar_sha256 content) ≟ digest)) [
    | inl y ↦ (≟_iff (codes "sha256:" ++ sidecar_sha256 content) digest).0 y
    | inr n ↦ absurd (cc (rw (check_sum, e, n) at h))
  ],
  λ h. rw (check_sum, e, h, ≟_refl digest) refl,
)

-- The first layer with the sidecar's title decides: if it can be read and holds a checksum, the
-- check succeeds exactly if the checksum is that of the payload's digest.
pub verify_sidecar_iff :
    (repo : Repository) (before after : List Descriptor) (l : Descriptor)
    (title digest content : Bytes)
    → All (λ x. (title_of x ≟ (title ++ codes ".sha256")) ≡ false) before
    → title_of l ≡ title ++ codes ".sha256"
    → repo.read l ≡ some content
    → is_empty (sidecar_sha256 content) ≡ false
    → (verify_sidecar repo (before ++ (l ∷ after)) title digest ≡ ok tt)
      ↔ ((codes "sha256:" ++ sidecar_sha256 content) ≡ digest)
unfolding verify_sidecar
verify_sidecar_iff repo [] after l title digest content b t r e =
    rw (t, ≟_refl (title ++ codes ".sha256"), r) (check_sum_iff digest content e)
verify_sidecar_iff repo (x ∷ before) after l title digest content (n, b) t r e =
    rw n (verify_sidecar_iff repo before after l title digest content b t r e)

component_of-disk :
    (name title digest : Bytes) (o : Result CacheError Bytes × Disk)
    → (component_of name title digest o).1 ≡ o.1
unfolding component_of
component_of-disk name title digest (ok p, d) = refl
component_of-disk name title digest (err e, d) = refl

component_of-ok :
    (name title digest : Bytes) (o : Result CacheError Bytes × Disk) {c : Component}
    → (component_of name title digest o).0 ≡ ok c
    → (o.0 ≡ ok c.path) × (digest ≡ c.digest) × (name ≡ c.name)
unfolding component_of
component_of-ok name title digest (ok p, d) h =
    let same = ok-injective h in
    (
      ap (λ (c : Component). ok c.path) same,
      ap (λ (c : Component). c.digest) same,
      ap (λ (c : Component). c.name) same,
    )
component_of-ok name title digest (err e, d) h = cc

blob_path-has :
    (root digest : Bytes) (d : Disk)
    → has root digest d ≡ true
    → blob_path root digest ≡ some (path_or_empty (blob_path root digest))
unfolding has
blob_path-has root digest d h = elim (Option-cases (blob_path root digest)) [
  | inl e ↦ absurd (cc (rw (has, e) at h))
  | inr (p, e) ↦ rw e refl
]

module _ (sha : Bytes → Bytes) (root : Bytes) where
  store_layer-IsIntact :
      (io : Io) (repo : Repository) (name : Bytes) (layer : Descriptor) (title : Bytes) (d : Disk)
      → root ≢ []
      → IsNewTemp sha root io.temp_name d
      → IsIntact sha root d
      → IsIntact sha root (store_layer sha root io repo name layer title d).1
  unfolding store_layer
  store_layer-IsIntact io repo name layer title d ne new intact =
      elim (Bool-cases (has root layer.digest d)) [
        | inl y ↦ rw (store_layer, y) intact
        | inr n ↦ elim (Option-cases (repo.fetch layer)) [
          | inl e ↦ rw (store_layer, n, e) intact
          | inr (content, e) ↦
              rw
                (
                  store_layer,
                  n,
                  e,
                  component_of-disk name title layer.digest
                      (put_stream sha root io layer.digest content d),
                )
                (put_stream-IsIntact sha root io layer.digest content d ne new intact)
        ]
      ]

  store_layer-Cached :
      (io : Io) (repo : Repository) (name : Bytes) (layer : Descriptor) (title : Bytes) (d : Disk)
      (c : Component)
      → root ≢ []
      → IsNewTemp sha root io.temp_name d
      → IsIntact sha root d
      → (store_layer sha root io repo name layer title d).0 ≡ ok c
      → (has root layer.digest (store_layer sha root io repo name layer title d).1 ≡ true)
        × (blob_path root layer.digest ≡ some c.path)
        × (layer.digest ≡ c.digest)
        × (name ≡ c.name)
  unfolding store_layer
  store_layer-Cached io repo name layer title d c ne new intact h =
      elim (Bool-cases (has root layer.digest d)) [
        | inl y ↦
            let same = ok-injective (rw (store_layer, y) at h) in
            (
              rw (store_layer, y) y,
              blob_path-has root layer.digest d y ∙ ap (λ (x : Component). some x.path) same,
              ap (λ (x : Component). x.digest) same,
              ap (λ (x : Component). x.name) same,
            )
        | inr n ↦ elim (Option-cases (repo.fetch layer)) [
          | inl e ↦ absurd (cc (rw (store_layer, n, e) at h))
          | inr (content, e) ↦
              let (put, digest, named) =
                component_of-ok name title layer.digest _ (rw (store_layer, n, e) at h) in
              let (there, fine, path) =
                put_stream-Stored sha root io layer.digest content c.path d ne new intact put in
              (
                rw
                    (
                      store_layer,
                      n,
                      e,
                      component_of-disk name title layer.digest
                          (put_stream sha root io layer.digest content d),
                    )
                    there,
                path,
                digest,
                named,
              )
        ]
      ]

  -- Whatever a pull ends with, the cache it leaves is intact if it was before, the root is not
  -- empty, and the temporary file, if there is one, is new and not named like a blob.
  pub fetch_component-IsIntact :
      (g : Registry) (io : Io) (arch name ref : Bytes) (d : Disk)
      → root ≢ []
      → IsNewTemp sha root io.temp_name d
      → IsIntact sha root d
      → IsIntact sha root (fetch_component sha root g io arch name ref d).1
  unfolding fetch_component store_found store_layer
  fetch_component-IsIntact g io arch name ref d ne new intact =
      Result-cases (λ r. IsIntact sha root (store_found sha root io name d r).1)
        (find_layer g arch name ref)
        (λ f e. store_layer-IsIntact io f.0 name f.1 f.2 d ne new intact) (λ x e. intact)

  -- A component that was pulled is named as it was asked for, its blob is in the cache, and its
  -- path is the blob's, if the root is not empty, the blobs were intact before, and the temporary
  -- file, if there is one, is new and not named like a blob.
  pub fetch_component-Cached :
      (g : Registry) (io : Io) (arch name ref : Bytes) (d : Disk) (c : Component)
      → root ≢ []
      → IsNewTemp sha root io.temp_name d
      → IsIntact sha root d
      → (fetch_component sha root g io arch name ref d).0 ≡ ok c
      → (has root c.digest (fetch_component sha root g io arch name ref d).1 ≡ true)
        × (blob_path root c.digest ≡ some c.path)
        × (name ≡ c.name)
  unfolding fetch_component store_layer store_found
  fetch_component-Cached g io arch name ref d c ne new intact =
      Result-cases
        (λ r.
          (store_found sha root io name d r).0 ≡ ok c
          → (has root c.digest (store_found sha root io name d r).1 ≡ true)
            × (blob_path root c.digest ≡ some c.path)
            × (name ≡ c.name))
        (find_layer g arch name ref)
        (λ f e h.
          let (there, path, digest, named) =
            store_layer-Cached io f.0 name f.1 f.2 d c ne new intact h in
          rw (← digest) (there, path, named))
        (λ x e h. absurd (cc h))
