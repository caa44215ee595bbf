-- ===== src/Oci/Checking.antt =====
-- What is known of a component that was pulled.
use dvm.Base.{
  Bytes, is_empty, not, Option, none, some, List, Result, ok, err, ok-injective, >>=-eq-ok,
  guard-eq-ok,
}
use dvm.Base.{◌≡◌, refl, ap, subst, inl, inr, Bool-cases, Option-cases, Result-cases}
use dvm.Component.{Component}
use dvm.Cache.{CacheError, Io, has}
use dvm.Cache.Disk.{Disk}
use dvm.Oci.Manifest.{Descriptor, select_primary_layer}
use dvm.Oci.Pull.{
  Repository, Registry, no_reference, title_or, verify_sidecar, Found, new_repository_for,
}
use dvm.Oci.Pull.{
  resolve_platform, fetch_manifest, choose_layer, layer_of, find_layer, component_of, store_found,
  store_layer, fetch_component,
}

-- The layer is the one that its name selects from the manifest, and its sidecar was checked.
abbrev pub IsChecked : Bytes → Repository → List Descriptor → Found → Type 0
IsChecked name repo man f =
    (f.0 ≡ repo)
    × (select_primary_layer name man ≡ some f.1)
    × (verify_sidecar repo man f.2 f.1.digest ≡ ok tt)

-- The manifest is the one that the repository has for the descriptor and the architecture.
abbrev pub IsManifest : Registry → Bytes → Repository → Option Descriptor → List Descriptor → Type 0
IsManifest g arch repo o man =
    (desc : Descriptor) × (sub : Descriptor) × (o ≡ some desc)
    × (resolve_platform g arch repo desc ≡ ok sub)
    × (fetch_manifest g repo sub ≡ ok man)

choose_layer-ok :
    (name : Bytes) (repo : Repository) (man : List Descriptor) (f : Found)
    → choose_layer name repo man ≡ ok f
    → IsChecked name repo man f
unfolding choose_layer
choose_layer-ok name repo man f h = elim (Option-cases (select_primary_layer name man)) [
  | inl e ↦ absurd (cc (rw (choose_layer, e) at h))
  | inr (layer, e) ↦
      let (u, fine, same) =
        >>=-eq-ok (verify_sidecar repo man (title_or name layer) layer.digest)
          (λ (v : Unit {0}). ok (repo, layer, title_or name layer)) (rw (choose_layer, e) at h) in
      subst (IsChecked name repo man) (ok-injective same) (refl, e, fine)
]

layer_of-ok :
    (g : Registry) (arch name : Bytes) (repo : Repository) (o : Option Descriptor) (f : Found)
    → layer_of g arch name repo o ≡ ok f
    → (man : List Descriptor) × IsManifest g arch repo o man × IsChecked name repo man f
unfolding layer_of
layer_of-ok g arch name repo none f h = absurd (cc h)
layer_of-ok g arch name repo (some desc) f h =
    let (sub, a, h1) = >>=-eq-ok (resolve_platform g arch repo desc) _ h in
    let (man, b, h2) = >>=-eq-ok (fetch_manifest g repo sub) _ h1 in
    (man, (desc, sub, refl, a, b), choose_layer-ok name repo man f h2)

find_layer-ok :
    (g : Registry) (arch name ref : Bytes) (f : Found)
    → find_layer g arch name ref ≡ ok f
    → (repo : Repository) × (reference : Bytes) × (man : List Descriptor) × (new_repository_for g
          ref
        ≡ ok (repo, reference))
      × IsManifest g arch repo (repo.resolve reference) man
      × IsChecked name repo man f
unfolding find_layer
find_layer-ok g arch name ref f h =
    let (found, a, h1) = >>=-eq-ok (new_repository_for g ref) _ h in
    let (man, here, fine) =
      layer_of-ok g arch name found.0 (found.0.resolve found.1) f
        (guard-eq-ok (not (is_empty found.1)) no_reference _ h1).1 in
    (found.0, found.1, man, a, here, fine)

module _ (sha : Bytes → Bytes) (root : Bytes) where
  component_of-title :
      (name title digest : Bytes) (o : Result CacheError Bytes × Disk) (c : Component)
      → (component_of name title digest o).0 ≡ ok c
      → (digest ≡ c.digest) × (title ≡ c.title)
  unfolding component_of
  component_of-title name title digest (ok p, d) c h =
      let same = ok-injective h in
      (ap (λ (x : Component). x.digest) same, ap (λ (x : Component). x.title) same)
  component_of-title name title digest (err e, d) c h = absurd (cc h)

  store_layer-title :
      (io : Io) (repo : Repository) (name : Bytes) (layer : Descriptor) (title : Bytes) (d : Disk)
      (c : Component)
      → (store_layer sha root io repo name layer title d).0 ≡ ok c
      → (layer.digest ≡ c.digest) × (title ≡ c.title)
  unfolding store_layer
  store_layer-title io repo name layer title d c h = elim (Bool-cases (has root layer.digest d)) [
    | inl y ↦
        let same = ok-injective (rw (store_layer, y) at h) in
        (ap (λ (x : Component). x.digest) same, ap (λ (x : Component). x.title) same)
    | inr n ↦ elim (Option-cases (repo.fetch layer)) [
      | inl e ↦ absurd (cc (rw (store_layer, n, e) at h))
      | inr (content, e) ↦
          component_of-title name title layer.digest _ c (rw (store_layer, n, e) at h)
    ]
  ]

  -- A component that was pulled comes from the manifest that its reference's repository has for the
  -- architecture: its digest is that of the layer which its name selects there, and the check of
  -- that layer's sidecar, under the component's title, has passed.
  pub fetch_component-Checked :
      (g : Registry) (io : Io) (arch name ref : Bytes) (d : Disk) (c : Component)
      → (fetch_component sha root g io arch name ref d).0 ≡ ok c
      → (repo : Repository) × (reference : Bytes) × (man : List Descriptor) × (layer : Descriptor)
        × (new_repository_for g ref ≡ ok (repo, reference))
        × IsManifest g arch repo (repo.resolve reference) man
        × (select_primary_layer name man ≡ some layer)
        × (layer.digest ≡ c.digest)
        × (verify_sidecar repo man c.title c.digest ≡ ok tt)
  unfolding fetch_component store_layer store_found
  fetch_component-Checked g io arch name ref d c =
      Result-cases
        (λ r.
          r ≡ find_layer g arch name ref
          → (store_found sha root io name d r).0 ≡ ok c
          → (repo : Repository) × (reference : Bytes) × (man : List Descriptor)
            × (layer : Descriptor) × (new_repository_for g ref ≡ ok (repo, reference))
            × IsManifest g arch repo (repo.resolve reference) man
            × (select_primary_layer name man ≡ some layer)
            × (layer.digest ≡ c.digest)
            × (verify_sidecar repo man c.title c.digest ≡ ok tt))
        (find_layer g arch name ref)
        (λ f e s h.
          let (repo, reference, man, opened, here, (same, chosen, fine)) =
            find_layer-ok g arch name ref f e in
          let (digest, title) = store_layer-title io f.0 name f.1 f.2 d c h in
          (repo, reference, man, f.1, opened, here, chosen, digest, rw (← digest, ← title) fine))
        (λ x e s h. absurd (cc h)) refl
