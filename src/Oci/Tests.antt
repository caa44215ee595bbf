-- ===== src/Oci/Tests.antt =====
-- Tests of internal/oci, and its theorems at concrete inputs.
use dvm.Base.{
  Bytes, codes, ◌≟◌, ≟_iff, ≟_refl, is_empty, Elem, All, Bool, true, false, pos, Option, none, some,
  List, [],
}
use dvm.Base.{◌∷◌, ◌++◌, Result, ok, err, ◌≡◌, ◌↔◌, ◌⊎◌, inl, inr, refl, if◌then◌else◌}
use dvm.Component.{Component}
use dvm.Cache.{has, blob_path}
use dvm.Cache.Samples.{hash, root, empty_disk, io, empty-IsIntact, io-IsNewTemp}
use dvm.Oci.Manifest.{
  Descriptor, Target, title_of, is_target, is_sidecar, select_primary_layer,
  select_platform_manifest, sidecar_sha256, annotation_title,
}
use dvm.Oci.Layers.{is_expected, IsMaximal, select_primary_layer_lem}
use dvm.Oci.Pull.{Repository, Registry, verify_sidecar, fetch_component}
use dvm.Oci.Pulling.{fetch_component-Cached}
use dvm.Oci.Pull.{
  store_found, new_repository_for, rewrite_registry, resolve_platform, descend, choose_platform,
  fetch_manifest, check_sum, component_of, store_layer, title_or,
}
use dvm.Oci.Manifest.{
  by_media_type, expected_media_types, first_wanted, is_wanted, largest, annotation, larger,
  title_of,
}
use dvm.Base.FilePath.{clean, join_path, parts, pop, push}
use dvm.Base.{
  contains, cut, fields, flush, has_prefix, has_suffix, join, split, to_lower, trim_left,
  trim_space, words,
}
use dvm.Cache.Disk.{mkdir_all, remove, rename, write_file}
use dvm.Cache.{blob_dir, commit, create_temp, is_hex, split_digest}
use dvm.Oci.Pull.{find_layer}
use dvm.Cache.{blob_file}
use dvm.Cache.{put_blob}
use dvm.Cache.{put_stream}
use dvm.Oci.Checking.{IsManifest, fetch_component-Checked}

abbrev sum : Bytes
sum = codes "0123456789abcdef0123456789abcdef0123456789abcdef0123456789abcdef"

abbrev payload : Descriptor
payload = record {
  media_type = codes "application/octet-stream";
  digest = codes "sha256:" ++ sum;
  size = pos 64;
  annotations = (annotation_title, codes "vmlinuz") ∷ [];
  platform = none;
}

abbrev checksum : Descriptor
checksum = record {
  media_type = codes "text/plain";
  digest = codes "sha256:cd";
  size = pos 900;
  annotations = (annotation_title, codes "vmlinuz.sha256") ∷ [];
  platform = none;
}

abbrev manifest_for : Bytes → Bytes → Descriptor
manifest_for arch os = record {
  media_type = codes "application/vnd.oci.image.manifest.v1+json";
  digest = arch;
  size = pos 10;
  annotations = [];
  platform = some (record { architecture = arch; os = os });
}

abbrev image_index : Descriptor
image_index = record payload { media_type = codes "application/vnd.oci.image.index.v1+json" }

abbrev layers : List Descriptor
layers = checksum ∷ payload ∷ []

abbrev manifests : List Descriptor
manifests =
    manifest_for (codes "amd64") (codes "windows")
    ∷ manifest_for (codes "amd64") (codes "linux")
    ∷ manifest_for (codes "arm64") []
    ∷ []

-- An index with two manifests, the same layers for all, and a checksum that is right.
abbrev repo : Repository
repo = record {
  resolve = λ reference. some image_index;
  read =
      λ l. if l.media_type ≟ codes "text/plain" then some (sum ++ codes "  vmlinuz") else some [];
  fetch = λ l. some sum;
}

abbrev registry : Registry
registry = record {
  parse_reference = λ ref.
      some (record { registry = codes "docker.io"; repository = ref; reference = codes "latest" });
  new_repository = λ r. if r.registry ≟ codes "registry-1.docker.io" then some repo else none;
  decode_index = λ data_read. some manifests;
  decode_manifest = λ data_read. some layers;
}

chosen_layer : select_primary_layer (codes "kernel") layers ≡ some payload
unfolding select_primary_layer dvm.Oci.Manifest.by_media_type dvm.Oci.Manifest.expected_media_types
    ◌≟◌ dvm.Oci.Manifest.first_wanted dvm.Oci.Manifest.is_wanted dvm.Oci.Manifest.largest is_sidecar
    dvm.Base.has_prefix dvm.Base.contains dvm.Base.has_suffix title_of dvm.Oci.Manifest.annotation
    dvm.Oci.Manifest.larger
chosen_layer = refl

chosen_manifest :
    select_platform_manifest manifests (codes "amd64")
    ≡ some (manifest_for (codes "amd64") (codes "linux"))
unfolding select_platform_manifest is_target ◌≟◌
chosen_manifest = refl

abbrev pulled : Component
pulled = record {
  name = codes "kernel";
  title = codes "vmlinuz";
  path = codes "/c/blobs/sha256/" ++ sum;
  digest = codes "sha256:" ++ sum;
}

fetched :
    (fetch_component hash root registry io
      (codes "amd64")
      (codes "kernel")
      (codes "a/b")
      empty_disk).0
    ≡ ok pulled
unfolding fetch_component store_found find_layer new_repository_for ◌≟◌ rewrite_registry
    resolve_platform descend choose_platform select_platform_manifest is_target fetch_manifest
    select_primary_layer by_media_type expected_media_types first_wanted is_wanted largest clean
    join_path parts pop push contains cut fields flush has_prefix has_suffix join split to_lower
    trim_left trim_space words mkdir_all remove rename write_file blob_dir blob_file blob_path
    commit create_temp has is_hex put_blob put_stream split_digest annotation is_sidecar larger
    sidecar_sha256 check_sum component_of store_layer title_or verify_sidecar title_of
    dvm.Oci.Pull.layer_of dvm.Oci.Pull.choose_layer
fetched = refl

select_primary_layer_lem_example :
    ((l : Descriptor) × (select_primary_layer (codes "kernel") layers ≡ some l)
      × Elem l layers
      × ((is_expected (codes "kernel") l ≡ true)
          ⊎ All (λ x. is_expected (codes "kernel") x ≡ false) layers
            × (is_sidecar l ≡ false)
            × IsMaximal l layers))
    ⊎ (select_primary_layer (codes "kernel") layers ≡ none)
      × All (λ x. is_expected (codes "kernel") x ≡ false) layers
      × All (λ x. is_sidecar x ≡ true) layers
select_primary_layer_lem_example = select_primary_layer_lem (codes "kernel") layers

payload_first :
    All (λ x. (title_of x ≟ (codes "vmlinuz" ++ codes ".sha256")) ≡ false) (payload ∷ [])
unfolding title_of ◌≟◌ dvm.Oci.Manifest.annotation
payload_first = (refl, tt)

checksum_titled : title_of checksum ≡ codes "vmlinuz" ++ codes ".sha256"
unfolding title_of dvm.Oci.Manifest.annotation ◌≟◌
checksum_titled = refl

checksum_read : is_empty (sidecar_sha256 (sum ++ codes "  vmlinuz")) ≡ false
unfolding sidecar_sha256 dvm.Base.fields dvm.Base.trim_space dvm.Base.to_lower
checksum_read = refl

fetch_component-Cached_example :
    (has root pulled.digest
        (fetch_component hash root registry io
          (codes "amd64")
          (codes "kernel")
          (codes "a/b")
          empty_disk).1
      ≡ true)
    × (blob_path root pulled.digest ≡ some pulled.path)
    × (codes "kernel" ≡ pulled.name)
fetch_component-Cached_example =
    fetch_component-Cached hash root registry io (codes "amd64") (codes "kernel") (codes "a/b")
      empty_disk pulled (λ e. cc e) io-IsNewTemp empty-IsIntact fetched

fetch_component-Checked_example :
    (r : Repository) × (reference : Bytes) × (man : List Descriptor) × (layer : Descriptor)
    × (new_repository_for registry (codes "a/b") ≡ ok (r, reference))
    × IsManifest registry (codes "amd64") r (r.resolve reference) man
    × (select_primary_layer (codes "kernel") man ≡ some layer)
    × (layer.digest ≡ pulled.digest)
    × (verify_sidecar r man pulled.title pulled.digest ≡ ok tt)
fetch_component-Checked_example =
    fetch_component-Checked hash root registry io (codes "amd64") (codes "kernel") (codes "a/b")
      empty_disk pulled fetched
