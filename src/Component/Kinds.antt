-- ===== src/Component/Kinds.antt =====
-- What ParseRef makes of a reference.
use dvm.Base.{Bytes, has_prefix, append-drop_of_has_prefix, trim_prefix}
use dvm.Base.{true, false, ◌++◌, ◌≡◌, ◌⊎◌, ◌↔◌, none, arith}
use dvm.Host.{Host}
use dvm.Component.Refs.{local, oci, Ref, oci_scheme, file_scheme, looks_local, looks_registry}
use dvm.Component.Refs.{parse_ref}

-- The text is the value behind the scheme that fits the kind, or the value alone.
abbrev pub Spells : Bytes → Ref → Type 0
Spells s r =
    (s ≡ oci_scheme ++ r.value) × (r.kind ≡ oci)
    ⊎ (s ≡ file_scheme ++ r.value) × (r.kind ≡ local)
    ⊎ (s ≡ r.value)

-- A parsed reference keeps the text, and its value is the text without the scheme: `oci://` only
-- for the registry, `file://` only for a local path.
pub parse_ref-Spells : (h : Host) (s : Bytes) → ((parse_ref h s).raw ≡ s) × Spells s (parse_ref h s)
unfolding parse_ref trim_prefix
parse_ref-Spells h s =
    ground (arith, append-drop_of_has_prefix s oci_scheme, append-drop_of_has_prefix s file_scheme)

-- A reference without the scheme `oci://` is looked up in a registry exactly if it has no
-- `file://`, does not look like a path, names nothing on the disk, and has a slash or a tag.
pub parse_ref-oci_iff :
    (h : Host) (s : Bytes)
    → has_prefix s oci_scheme ≡ false
    → ((parse_ref h s).kind ≡ oci) ↔ (
        (has_prefix s file_scheme ≡ false)
        × (looks_local h s ≡ false)
        × (h.stat s ≡ none)
        × (looks_registry s ≡ true))
unfolding parse_ref
parse_ref-oci_iff h s e = (λ k. ground arith, λ k. ground arith)
