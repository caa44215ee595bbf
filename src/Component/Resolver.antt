-- ===== src/Component/Resolver.antt =====
-- internal/component/provider.go: the resolver. The fetcher is an interface there and an argument
-- here; it changes a state of its own, the cache, which is passed through.
use dvm.Base.{Bytes, is_empty, if◌then◌else◌, Option, none, some, [], Result, ok, err}
use dvm.Host.{Host}
use dvm.Component.Refs.{Kind, local, oci, Ref, Component, parse_ref, abs_path}

pub data ResolveError (E : Type 0) : Type 0 where
  empty_reference : ResolveError E
  no_absolute_path : ResolveError E
  path_not_found : ResolveError E
  no_fetcher : ResolveError E
  fetch_failed : E → ResolveError E

-- `OCIFetcher`: the component's name and the reference, on the state of the fetcher.
abbrev pub OciFetcher : Type 0 → Type 0 → Type 0
OciFetcher S E = Bytes → Bytes → S → Result E Component × S

module _ {E : Type 0} where
  stat_local : Host → Bytes → Bytes → Result (ResolveError E) Component
  stat_local h name abs = elim (h.stat abs) [
    | none ↦ err path_not_found
    | some fi ↦ ok (record { name = name; title = fi.base_name; path = abs; digest = [] })
  ]

  unfoldable pub resolve_local : Host → Bytes → Bytes → Result (ResolveError E) Component
  unfolding stat_local
  resolve_local h name value = elim (abs_path h value) [
    | none ↦ err no_absolute_path
    | some abs ↦ stat_local h name abs
  ]

module _ {S E : Type 0} where
  unfoldable pub fetched : Result E Component × S → Result (ResolveError E) Component × S
  fetched (ok c, s) = (ok c, s)
  fetched (err e, s) = (err (fetch_failed e), s)

  unfoldable pub resolve_oci :
      Option (OciFetcher S E) → Bytes → Bytes → S → Result (ResolveError E) Component × S
  unfolding fetched
  resolve_oci none name value s = (err no_fetcher, s)
  resolve_oci (some fetch) name value s = fetched (fetch name value s)

  unfoldable pub dispatch :
      Host
      → Option (OciFetcher S E)
      → Bytes
      → Ref
      → Kind
      → S
      → Result (ResolveError E) Component × S
  dispatch h fetcher name r local s = (resolve_local h name r.value, s)
  dispatch h fetcher name r oci s = resolve_oci fetcher name r.value s

  unfoldable pub resolve :
      Host → Option (OciFetcher S E) → Bytes → Bytes → S → Result (ResolveError E) Component × S
  unfolding dispatch
  resolve h fetcher name ref s =
      if is_empty ref
      then (err empty_reference, s)
      else dispatch h fetcher name (parse_ref h ref) (parse_ref h ref).kind s
