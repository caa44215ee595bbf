-- ===== src/Oci/Pull.antt =====
-- internal/oci/pull.go: the puller. The registry client (oras-go) and the JSON decoder are the
-- record `Registry`; the cache is the disk of `Cache`, under its root.
use dvm.Base.{Bytes, codes, ◌≟◌, is_empty, Bool, not, ◌||◌, Option, none, some, List, [], ◌∷◌, ◌++◌}
use dvm.Base.{if◌then◌else◌, Result, ok, err, ◌>>=◌, ◌>>◌, guard}
use dvm.Component.{Component}
use dvm.Cache.{CacheError, Io, has, blob_path, put_stream}
use dvm.Cache.Disk.{Disk}
use dvm.Oci.Manifest.{
  Descriptor, title_of, select_primary_layer, select_platform_manifest, sidecar_sha256,
}

-- `registry.Reference`
pub record Reference : Type 0 where
  pub registry : Bytes
  pub repository : Bytes
  pub reference : Bytes

-- `remote.Repository`: `read` is `Fetch` followed by `content.ReadAll`, and `fetch` what a blob's
-- reader yields.
pub record Repository : Type 0 where
  pub resolve : Bytes → Option Descriptor
  pub read : Descriptor → Option Bytes
  pub fetch : Descriptor → Option Bytes

pub record Registry : Type 0 where
  pub parse_reference : Bytes → Option Reference
  pub new_repository : Reference → Option Repository
  pub decode_index : Bytes → Option (List Descriptor)
  pub decode_manifest : Bytes → Option (List Descriptor)

pub data PullError : Type 0 where
  bad_reference : PullError
  no_repository : PullError
  no_reference : PullError
  unresolved : PullError
  unreadable_index : PullError
  no_platform : PullError
  unreadable_manifest : PullError
  no_payload : PullError
  sidecar_mismatch : Bytes → Bytes → PullError
  fetch_blob : PullError
  store_blob : CacheError → PullError

-- `New`: the architecture of the host unless one is given
unfoldable pub puller_arch : Bytes → Bytes → Bytes
puller_arch goarch arch = if is_empty arch then goarch else arch

-- Docker Hub's web host stands for its registry.
unfoldable pub rewrite_registry : Reference → Reference
rewrite_registry r =
    if r.registry ≟ codes "docker.io"
    then record r { registry = codes "registry-1.docker.io" }
    else r

module _ (g : Registry) where
  unfoldable pub new_repository_for : Bytes → Result PullError (Repository × Bytes)
  new_repository_for ref = elim (g.parse_reference ref) [
    | none ↦ err bad_reference
    | some r ↦ elim (g.new_repository (rewrite_registry r)) [
      | none ↦ err no_repository
      | some repo ↦ ok (repo, (rewrite_registry r).reference)
    ]
  ]

  abbrev pub is_index : Bytes → Bool
  is_index t =
      (t ≟ codes "application/vnd.oci.image.index.v1+json")
      || (t ≟ codes "application/vnd.docker.distribution.manifest.list.v2+json")

  unfoldable pub choose_platform : Bytes → List Descriptor → Result PullError Descriptor
  choose_platform arch idx = elim (select_platform_manifest idx arch) [
    | none ↦ err no_platform
    | some sub ↦ ok sub
  ]

  unfoldable pub descend : Bytes → Option Bytes → Result PullError Descriptor
  descend arch none = err unreadable_index
  descend arch (some data_read) = elim (g.decode_index data_read) [
    | none ↦ err unreadable_index
    | some idx ↦ choose_platform arch idx
  ]

  unfoldable pub resolve_platform : Bytes → Repository → Descriptor → Result PullError Descriptor
  resolve_platform arch repo desc =
      if is_index desc.media_type then descend arch (repo.read desc) else ok desc

  unfoldable pub fetch_manifest : Repository → Descriptor → Result PullError (List Descriptor)
  fetch_manifest repo desc = elim (repo.read desc) [
    | none ↦ err unreadable_manifest
    | some data_read ↦ elim (g.decode_manifest data_read) [
      | none ↦ err unreadable_manifest
      | some man ↦ ok man
    ]
  ]

-- The check of the sidecar that was found; what cannot be read or understood is passed over.
unfoldable pub check_sum : Bytes → Option Bytes → Result PullError (Unit {0})
check_sum digest none = ok tt
check_sum digest (some content) =
    let sum = sidecar_sha256 content in
    if is_empty sum
    then ok tt
    else if not ((codes "sha256:" ++ sum) ≟ digest)
    then err (sidecar_mismatch sum digest)
    else ok tt

-- `verifySidecar`: only the first layer with the sidecar's title counts.
unfoldable pub verify_sidecar :
    Repository → List Descriptor → Bytes → Bytes → Result PullError (Unit {0})
verify_sidecar repo [] title digest = ok tt
verify_sidecar repo (l ∷ ls) title digest =
    let rest = verify_sidecar repo ls title digest in
    if title_of l ≟ (title ++ codes ".sha256") then check_sum digest (repo.read l) else rest

unfoldable pub title_or : Bytes → Descriptor → Bytes
title_or name layer = if is_empty (title_of layer) then name else title_of layer

-- What was found: where to fetch from, the layer, and its title.
abbrev pub Found : Type 0
Found = Repository × Descriptor × Bytes

-- The payload of a manifest, once its sidecar is checked.
unfoldable pub choose_layer : Bytes → Repository → List Descriptor → Result PullError Found
choose_layer name repo man = elim (select_primary_layer name man) [
  | none ↦ err no_payload
  | some layer ↦ do
    verify_sidecar repo man (title_or name layer) layer.digest
    ok (repo, layer, title_or name layer)
]

-- The layer of a component, up to the check of its sidecar.
module _ (g : Registry) where
  unfoldable pub layer_of : Bytes → Bytes → Repository → Option Descriptor → Result PullError Found
  layer_of arch name repo none = err unresolved
  layer_of arch name repo (some desc) = do
    sub ← resolve_platform g arch repo desc
    man ← fetch_manifest g repo sub
    choose_layer name repo man

  unfoldable pub find_layer : Bytes → Bytes → Bytes → Result PullError Found
  find_layer arch name ref = do
    found ← new_repository_for g ref
    guard (not (is_empty found.1)) no_reference
    layer_of arch name found.0 (found.0.resolve found.1)

-- What is stored, as a component.
unfoldable pub component_of :
    Bytes → Bytes → Bytes → Result CacheError Bytes × Disk → Result PullError Component × Disk
component_of name title digest (ok path, d) =
    (ok (record { name = name; title = title; path = path; digest = digest }), d)
component_of name title digest (err e, d) = (err (store_blob e), d)

-- An empty path stands for a digest without one, as the code ignores that error.
abbrev pub path_or_empty : Option Bytes → Bytes
path_or_empty none = []
path_or_empty (some p) = p

module _ (sha : Bytes → Bytes) (root : Bytes) where
  unfoldable pub store_layer :
      Io → Repository → Bytes → Descriptor → Bytes → Disk → Result PullError Component × Disk
  store_layer io repo name layer title d =
      if has root layer.digest d
      then (
        ok (record {
          name = name;
          title = title;
          path = path_or_empty (blob_path root layer.digest);
          digest = layer.digest;
        }),
        d,
      )
      else elim (repo.fetch layer) [
        | none ↦ (err fetch_blob, d)
        | some content ↦
            component_of name title layer.digest (put_stream sha root io layer.digest content d)
      ]

  unfoldable pub store_found :
      Io
      → Bytes
      → Disk
      → Result PullError (Repository × Descriptor × Bytes)
      → Result PullError Component × Disk
  store_found io name d (err e) = (err e, d)
  store_found io name d (ok (repo, layer, title)) = store_layer io repo name layer title d

  -- `Fetch`
  unfoldable pub fetch_component :
      Registry → Io → Bytes → Bytes → Bytes → Disk → Result PullError Component × Disk
  fetch_component g io arch name ref d = store_found io name d (find_layer g arch name ref)
