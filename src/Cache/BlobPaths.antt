-- ===== src/Cache/BlobPaths.antt =====
-- Blobs with different digests stand at different paths.
use dvm.Base.{ℕ, Bytes, codes, is_empty, cut, join, Lacks, true, ◌||◌}
use dvm.Base.{
  Option, none, some, [], ◌∷◌, ◌++◌, ◌≡◌, ◌≢◌, refl, sym, ap, ◌∙◌, arith, subst, inl, inr,
  if◌then◌else◌, Option-cases, Bool-cases,
}
use mathlib.Core.Option.{some-injective}
use dvm.Base.FilePath.{join_path, clean, is_abs, parts}
use dvm.Base.PathParts.{IsName, join-snoc, clean-append, append-cancel, before_last}
use dvm.Cache.Store.{is_hex, split_digest, blob_file}

-- The digits of a digest, as `splitDigest` accepts them.
pub record IsDigits (hex : Bytes) : Type 0 where
  pub full : hex ≢ []
  pub valid : is_hex hex ≡ true

is_hex-Lacks : (s : Bytes) → is_hex s ≡ true → Lacks b'/' s
unfolding is_hex
is_hex-Lacks [] h = tt
is_hex-Lacks (c ∷ []) h = cc
is_hex-Lacks (c ∷ d ∷ s) h = (ground arith, (ground arith, is_hex-Lacks s (ground arith)))

pub IsDigits-IsName : (hex : Bytes) → IsDigits hex → IsName hex
unfolding is_hex
IsDigits-IsName hex d = record {
  full = d.full;
  no_dot = λ e. cc (rw e at d.valid);
  no_dots = λ e. cc (rw e at d.valid);
  no_slash = is_hex-Lacks hex d.valid;
}

pub split_digest-IsDigits :
    (digest algo hex : Bytes) → split_digest digest ≡ some (algo, hex) → IsDigits hex
unfolding split_digest
split_digest-IsDigits digest algo hex h = elim (Option-cases (cut digest b':')) [
  | inl e ↦ absurd (cc (rw (e, split_digest) at h))
  | inr ((a, x), e) ↦ parts_ok a x (rw (e, split_digest) at h)
]
  where
    parts_ok :
        (a x : Bytes)
        → ◌≡◌ {A = Option (Bytes × Bytes)}
            (if is_empty a || is_empty x then none else if is_hex x then some (a, x) else none)
            (some (algo, hex))
        → IsDigits hex
    parts_ok [] x k = cc
    parts_ok (c ∷ a) [] k = cc
    parts_ok (c ∷ a) (d ∷ x) k = elim (Bool-cases (is_hex (d ∷ x))) [
      | inl y ↦
          let same : ◌≡◌ {A = Option (Bytes × Bytes)} (some (c ∷ a, d ∷ x)) (some (algo, hex)) =
            rw y at k in
          subst IsDigits (ap (λ t. t.1) (some-injective _ _ same))
            (record { full = λ e. cc; valid = y })
      | inr n ↦ absurd (cc (rw n at k))
    ]

pub blob_file-append :
    (c : ℕ) (s algo hex : Bytes)
    → IsName hex
    → blob_file (c ∷ s) algo hex
      ≡ before_last
          (is_abs (c ∷ s))
          (parts (join ((c ∷ s) ∷ codes "blobs" ∷ algo ∷ []) (codes "/")))
        ++ hex
unfolding blob_file join_path
blob_file-append c s algo hex n =
    ap clean (join-snoc (c ∷ s) (codes "blobs" ∷ algo ∷ []) hex (codes "/"))
    ∙ (clean-append (join ((c ∷ s) ∷ codes "blobs" ∷ algo ∷ []) (codes "/")) hex
          (unfold join in λ e. cc) n
        ∙ unfold join in refl)

-- Under one root that is not empty and one algorithm, the path of a blob determines the digits of
-- its digest, for digits that a digest can have.
pub blob_file-injective :
    (root algo hex hex' : Bytes)
    → root ≢ []
    → IsDigits hex
    → IsDigits hex'
    → blob_file root algo hex ≡ blob_file root algo hex'
    → hex ≡ hex'
blob_file-injective [] algo hex hex' r d d' e = absurd (r refl)
blob_file-injective (c ∷ s) algo hex hex' r d d' e = append-cancel _ hex hex' (
    sym (blob_file-append c s algo hex (IsDigits-IsName hex d))
    ∙ (e ∙ blob_file-append c s algo hex' (IsDigits-IsName hex' d')))
