-- ===== src/Oci/Manifest.antt =====
-- internal/oci/manifest.go: choosing a layer of a manifest, a manifest of an index, and reading a
-- checksum sidecar. Of a descriptor of the image specification the fields that the code reads.
use dvm.Base.{
  ℤ, Bytes, codes, ◌≟◌, is_empty, has_prefix, has_suffix, contains, fields, trim_space, to_lower,
  length,
}
use dvm.Base.{
  ltb_int, Bool, true, false, ◌&&◌, ◌||◌, Option, none, some, List, [], ◌∷◌, if◌then◌else◌, ◌==◌,
}

pub record Target : Type 0 where
  pub architecture : Bytes
  pub os : Bytes

pub record Descriptor : Type 0 where
  pub media_type : Bytes
  pub digest : Bytes
  pub size : ℤ
  pub annotations : List (Bytes × Bytes)
  pub platform : Option Target

-- A Go map's value, which is empty for a missing key.
unfoldable pub annotation : List (Bytes × Bytes) → Bytes → Bytes
annotation [] key = []
annotation ((k, v) ∷ rest) key = let value = annotation rest key in if k ≟ key then v else value

abbrev pub annotation_title : Bytes
annotation_title = codes "org.opencontainers.image.title"

unfoldable pub title_of : Descriptor → Bytes
title_of l = annotation l.annotations annotation_title

unfoldable pub is_sidecar : Descriptor → Bool
is_sidecar l =
    if has_prefix l.media_type (codes "text/plain")
    then true
    else if contains l.media_type (codes "provenance")
    then true
    else has_suffix (title_of l) (codes ".sha256")
      || has_suffix (title_of l) (codes ".provenance.json")

unfoldable pub expected_media_types : Bytes → Option (List Bytes)
expected_media_types name =
    if name ≟ codes "kernel"
    then some (
        codes "application/vnd.linux.vmlinux.v1+binary"
        ∷ codes "application/vnd.linux.kernel.v1+binary"
        ∷ [])
    else if name ≟ codes "initrd"
    then some (codes "application/vnd.linux.initrd.v1+binary" ∷ [])
    else if name ≟ codes "rootfs"
    then some (
        codes "application/vnd.linux.disk.qcow2.v1+binary"
        ∷ codes "application/vnd.linux.disk.ext4.v1+binary"
        ∷ codes "application/vnd.linux.rootfs.qcow2.v1+binary"
        ∷ codes "application/vnd.linux.rootfs.ext4.v1+binary"
        ∷ [])
    else none

-- The inner loop of the search: the type is one of the wanted ones.
unfoldable pub is_wanted : List Bytes → Bytes → Bool
is_wanted [] t = false
is_wanted (w ∷ ws) t = (t ≟ w) || is_wanted ws t

unfoldable pub first_wanted : List Bytes → List Descriptor → Option Descriptor
first_wanted want [] = none
first_wanted want (l ∷ ls) =
    let rest = first_wanted want ls in if is_wanted want l.media_type then some l else rest

-- One step of the loop that looks for the largest payload.
unfoldable pub larger : Option Descriptor → Descriptor → Option Descriptor
larger none l = some l
larger (some best) l = if ltb_int best.size l.size then some l else some best

unfoldable pub largest : Option Descriptor → List Descriptor → Option Descriptor
largest best [] = best
largest best (l ∷ ls) = largest (if is_sidecar l then best else larger best l) ls

unfoldable pub by_media_type : Bytes → List Descriptor → Option Descriptor
by_media_type name layers = elim (expected_media_types name) [
  | none ↦ none
  | some want ↦ first_wanted want layers
]

unfoldable pub select_primary_layer : Bytes → List Descriptor → Option Descriptor
select_primary_layer name layers = elim (by_media_type name layers) [
  | some l ↦ some l
  | none ↦ largest none layers
]

unfoldable pub is_target : Bytes → Option Target → Bool
is_target arch none = false
is_target arch (some p) = (p.architecture ≟ arch) && (is_empty p.os || (p.os ≟ codes "linux"))

unfoldable pub select_platform_manifest : List Descriptor → Bytes → Option Descriptor
select_platform_manifest [] arch = none
select_platform_manifest (m ∷ ms) arch =
    let rest = select_platform_manifest ms arch in
    if is_target arch m.platform then some m else rest

abbrev pub checksum_of : List Bytes → Bytes
checksum_of [] = []
checksum_of (tok ∷ more) = if length (trim_space tok) == 64 then to_lower (trim_space tok) else []

unfoldable pub sidecar_sha256 : Bytes → Bytes
sidecar_sha256 content = checksum_of (fields content)
