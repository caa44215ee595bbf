-- ===== src/Component/Refs.antt =====
-- internal/component/ref.go: a reference is classified as a registry reference or a local path.
use dvm.Base.{ℕ, Bytes, codes, ◌≟◌, is_empty, has_prefix, trim_prefix, contains, last_index, ltb}
use dvm.Base.{Bool, true, false, ◌&&◌, ◌||◌, ◌==◌, if◌then◌else◌, Option, none, some, [], ◌∷◌}
use dvm.Base.FilePath.{clean, join_path, is_abs}
use dvm.Host.{Host}

pub data Kind : Type 0 where
  local oci : Kind

pub record Ref : Type 0 where
  pub raw : Bytes
  pub kind : Kind
  pub value : Bytes

pub record Component : Type 0 where
  pub name : Bytes
  pub title : Bytes
  pub path : Bytes
  pub digest : Bytes

abbrev pub oci_scheme : Bytes
oci_scheme = codes "oci://"

abbrev pub file_scheme : Bytes
file_scheme = codes "file://"

-- `len(s) >= 3 && s[1] == ':' && (s[2] == '\\' || s[2] == '/')`
drive_path : Bytes → Bool
drive_path (a ∷ b ∷ c ∷ s) = (b == b':') && ((c == b'\\') || (c == b'/'))
drive_path _ = false

unfoldable pub looks_local : Host → Bytes → Bool
unfolding drive_path
looks_local h s =
    is_empty s
    || (has_prefix s (codes "/")
        || has_prefix s (codes "./")
        || has_prefix s (codes "../")
        || has_prefix s (codes "~"))
    || ((h.goos ≟ codes "windows") && drive_path s)

-- A colon at the front is no tag.
abbrev has_tag : Option ℕ → Bool
has_tag none = false
has_tag (some i) = ltb 0 i

unfoldable pub looks_registry : Bytes → Bool
looks_registry s = contains s (codes "/") || has_tag (last_index s b':')

abbrev exists : Host → Bytes → Bool
exists h s = elim (h.stat s) [ none ↦ false | some _ ↦ true ]

unfoldable pub parse_ref : Host → Bytes → Ref
parse_ref h s =
    if has_prefix s oci_scheme
    then record { raw = s; kind = oci; value = trim_prefix s oci_scheme }
    else if has_prefix s file_scheme
    then record { raw = s; kind = local; value = trim_prefix s file_scheme }
    else if looks_local h s
    then record { raw = s; kind = local; value = s }
    else if exists h s
    then record { raw = s; kind = local; value = s }
    else if looks_registry s
    then record { raw = s; kind = oci; value = s }
    else record { raw = s; kind = local; value = s }

-- The `~` at the front stands for the home directory, if that is known.
expand_home : Host → Bytes → Bytes
expand_home h p =
    if has_prefix p (codes "~")
    then elim h.user_home_dir [
      | none ↦ p
      | some home ↦ join_path (home ∷ trim_prefix p (codes "~") ∷ [])
    ]
    else p

-- filepath.Abs
unfoldable pub file_abs : Host → Bytes → Option Bytes
file_abs h p =
    if is_abs p
    then some (clean p)
    else elim h.getwd [ none ↦ none | some wd ↦ some (join_path (wd ∷ p ∷ [])) ]

unfoldable pub abs_path : Host → Bytes → Option Bytes
unfolding expand_home
abs_path h p = file_abs h (expand_home h p)
