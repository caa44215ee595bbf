-- ===== src/Component/Tests.antt =====
-- Tests of internal/component, and its theorems at concrete inputs.
use dvm.Base.{ℕ, Bytes, codes, has_prefix, ◌≟◌, split, join, []}
use dvm.Base.{Option, none, some, true, false, ◌≡◌, refl, ◌↔◌}
use dvm.Base.FilePath.{is_abs}
use dvm.Samples.{linux_host}
use dvm.Component.Refs.{oci, Component, parse_ref, looks_local}
use dvm.Component.Refs.{abs_path, file_abs}
use dvm.Component.Resolver.{OciFetcher, resolve, resolve_local}
use dvm.Component.Resolving.{Source, resolve-Source}

abbrev image : Bytes
image = codes "oci://ghcr.io/x/y:tag"

abbrev tagged : Bytes
tagged = codes "ghcr.io/x/y:tag"

image_kind : parse_ref linux_host image ≡ record { raw = image; kind = oci; value = tagged }
unfolding parse_ref has_prefix ◌≟◌ dvm.Base.trim_prefix
image_kind = refl

tilde : abs_path linux_host (codes "~/k") ≡ some (codes "/home/u/k")
unfolding abs_path file_abs has_prefix ◌≟◌ split join dvm.Base.FilePath.join_path
    dvm.Base.trim_prefix
tilde = refl

abbrev no_fetch : Option (OciFetcher ℕ ℕ)
no_fetch = none

abbrev kernel : Component
kernel = record {
  name = codes "kernel";
  title = codes "vmlinux";
  path = codes "/vm/vmlinux";
  digest = [];
}

resolve-Source_example : Source linux_host no_fetch (codes "kernel") (codes "./vmlinux") 0 kernel 0
unfolding resolve resolve_local parse_ref looks_local abs_path file_abs has_prefix ◌≟◌ split join
    dvm.Base.FilePath.join_path
resolve-Source_example =
    resolve-Source linux_host no_fetch (codes "kernel") (codes "./vmlinux") 0 0 {c = kernel} refl
