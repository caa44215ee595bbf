-- ===== src/Component/Resolving.antt =====
-- What Abs and Resolver.Resolve return.
use dvm.Base.{Bytes, codes, join, true, Option, none, some, [], ◌∷◌, List}
use dvm.Base.{Result, ok, err, ◌≡◌, ◌≢◌, refl, sym, ap, ◌⊎◌, inl, inr, arith}
use dvm.Base.{Option-cases, Bool-cases}
use dvm.Base.FilePath.{is_abs, clean, join_path}
use dvm.Host.{Host}
use dvm.Component.Refs.{Kind, local, oci, Component, parse_ref, abs_path, file_abs}
use dvm.Component.Resolver.{OciFetcher, resolve, resolve_local, resolve_oci, fetched, dispatch}

-- The directories that the operating system reports are absolute.
abbrev pub IsAbsDir : Option Bytes → Type 0
IsAbsDir none = Unit
IsAbsDir (some d) = is_abs d ≡ true

clean-is_abs : (s : Bytes) → is_abs s ≡ true → is_abs (clean s) ≡ true
unfolding clean
clean-is_abs s e = rw e refl

join-is_abs :
    (c : Bytes) (rest : List Bytes) → is_abs c ≡ true → is_abs (join (c ∷ rest) (codes "/")) ≡ true
unfolding join
join-is_abs [] rest e = cc
join-is_abs (c ∷ s) [] e = e
join-is_abs (c ∷ s) (q ∷ rest) e = e

join_path-is_abs :
    (d : Bytes) (rest : List Bytes) → is_abs d ≡ true → is_abs (join_path (d ∷ rest)) ≡ true
unfolding join_path
join_path-is_abs [] rest e = cc
join_path-is_abs (c ∷ s) rest e =
    clean-is_abs (join ((c ∷ s) ∷ rest) (codes "/")) (join-is_abs (c ∷ s) rest e)

file_abs-is_abs :
    (h : Host) (p : Bytes) {q : Bytes} → IsAbsDir h.getwd → file_abs h p ≡ some q → is_abs q ≡ true
unfolding file_abs
file_abs-is_abs h p {q} wd e = elim (Bool-cases (is_abs p)) [
  | inl y ↦ ground (arith, clean-is_abs p y)
  | inr n ↦ elim (Option-cases h.getwd) [
    | inl w ↦ ground arith
    | inr (w, ew) ↦ ground (arith, join_path-is_abs w (p ∷ []))
  ]
]

-- `Abs` returns an absolute path, if the operating system's working directory is one.
pub abs_path-is_abs :
    (h : Host) (p : Bytes) {q : Bytes} → IsAbsDir h.getwd → abs_path h p ≡ some q → is_abs q ≡ true
unfolding abs_path
abs_path-is_abs h p wd e = file_abs-is_abs h _ wd e

resolve_local-ok :
    {E : Type 0} (h : Host) (name v : Bytes) {c : Component}
    → resolve_local {E = E} h name v ≡ ok c
    → (c.name ≡ name) × (c.digest ≡ []) × (abs_path h v ≡ some c.path) × (h.stat c.path ≢ none)
unfolding resolve_local
resolve_local-ok h name v e = elim (Option-cases (abs_path h v)) [
  | inl n ↦ ground arith
  | inr (abs, ea) ↦ elim (Option-cases (h.stat abs)) [
    | inl n ↦ ground arith
    | inr (fi, ef) ↦ ground arith
  ]
]

module _ {S E : Type 0} where
  -- Where a resolved component comes from.
  abbrev pub Source : Host → Option (OciFetcher S E) → Bytes → Bytes → S → Component → S → Type 0
  Source h fetcher name ref s c s' =
      ((parse_ref h ref).kind ≡ local)
        × (c.name ≡ name)
        × (c.digest ≡ [])
        × (abs_path h (parse_ref h ref).value ≡ some c.path)
        × (h.stat c.path ≢ none)
        × (s' ≡ s)
      ⊎ ((parse_ref h ref).kind ≡ oci)
        × ((fetch : OciFetcher S E) × (fetcher ≡ some fetch)
            × (fetch name (parse_ref h ref).value s ≡ (ok c, s')))

  resolve_oci-ok :
      (fetcher : Option (OciFetcher S E)) (name v : Bytes) (s s' : S) {c : Component}
      → resolve_oci fetcher name v s ≡ (ok c, s')
      → (fetch : OciFetcher S E) × (fetcher ≡ some fetch) × (fetch name v s ≡ (ok c, s'))
  unfolding resolve_oci
  resolve_oci-ok none name v s s' e = absurd (cc (ap (λ p. p.0) e))
  resolve_oci-ok (some fetch) name v s s' e = (fetch, refl, fetched-ok (fetch name v s) e)
    where
      fetched-ok :
          (p : Result E Component × S) {c : Component} → fetched p ≡ (ok c, s') → p ≡ (ok c, s')
      fetched-ok (ok d, t) q = ground arith
      fetched-ok (err d, t) q = ground arith

  dispatch-Source :
      (h : Host) (fetcher : Option (OciFetcher S E)) (name ref : Bytes) (s s' : S) {c : Component}
      (k : Kind)
      → (parse_ref h ref).kind ≡ k
      → dispatch h fetcher name (parse_ref h ref) k s ≡ (ok c, s')
      → Source h fetcher name ref s c s'
  unfolding dispatch
  dispatch-Source h fetcher name ref s s' local k e =
      let (a, b, d, x) = resolve_local-ok h name (parse_ref h ref).value (ap (λ p. p.0) e) in
      inl (k, a, b, d, x, sym (ap (λ p. p.1) e))
  dispatch-Source h fetcher name ref s s' oci k e =
      inr (k, resolve_oci-ok fetcher name (parse_ref h ref).value s s' e)

  -- A resolved component is a path at which something stands, a file or a directory, the absolute
  -- path of what the reference says and with the cache untouched, or it is what the fetcher returned
  -- for the reference.
  pub resolve-Source :
      (h : Host) (fetcher : Option (OciFetcher S E)) (name ref : Bytes) (s s' : S) {c : Component}
      → resolve h fetcher name ref s ≡ (ok c, s')
      → Source h fetcher name ref s c s'
  unfolding resolve
  resolve-Source h fetcher name [] s s' e = absurd (cc (ap (λ p. p.0) e))
  resolve-Source h fetcher name (x ∷ ref) s s' e =
      dispatch-Source h fetcher name (x ∷ ref) s s' _ refl e
