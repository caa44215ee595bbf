-- ===== src/App/Booting.antt =====
-- What a start with QEMU has checked when it succeeds.
use dvm.Base.{
  subst, sym, is_empty, Bytes, codes, Bool, true, false, Option, List, All, Result, ok, err,
  ok-injective,
}
use dvm.Base.{◌≡◌, refl, ap, Bool-cases, inl, inr}
use dvm.Cache.Disk.{Disk}
use dvm.Cache.{new_cache}
use dvm.Component.{Component}
use dvm.Qemu.{Archive, PortForward}
use dvm.Vm.{listen_addr, lock_path}
use dvm.Vm.Locking.{IsFree}
use dvm.App.Create.{App}
use dvm.App.Flow.{
  FlowError, Flow, follow, call, wrapped, require, locked, missing_references, no_cache,
}
use dvm.App.Start.{
  World, has_references, qemu_paths, resolve_named, new_state, state_dir, boot_locked, start_qemu,
  spec_for, take_lock, lock_content, oci_root,
}

pub follow-ok :
    {A B : Type 0} (x : Result FlowError A × Disk) (f : A → Flow B) {b : B}
    → (follow x f).0 ≡ ok b
    → (a : A) × (d : Disk) × (x ≡ (ok a, d)) × ((f a d).0 ≡ ok b)
follow-ok (ok a, d) f e = (a, d, refl, e)
follow-ok (err e', d) f e = absurd (cc e)

pub require-ok : (b : Bool) (e : FlowError) (d d' : Disk) → require b e d ≡ (ok tt, d') → b ≡ true
require-ok true e d d' h = refl
require-ok false e d d' h = absurd (cc (ap (λ x. x.0) h))

require_same : (b : Bool) (e : FlowError) (d d' : Disk) → require b e d ≡ (ok tt, d') → d' ≡ d
require_same true e d d' h = sym (ap (λ x. x.1) h)
require_same false e d d' h = absurd (cc (ap (λ x. x.0) h))

pub wrapped-ok :
    {E A : Type 0} (wrap : E → FlowError) (x : Result E A × Disk) (d' : Disk) (a : A)
    → wrapped wrap x ≡ (ok a, d')
    → x.0 ≡ ok a
wrapped-ok wrap (ok b, d) d' a h = ap ok (ok-injective (ap (λ x. x.0) h))
wrapped-ok wrap (err e, d) d' a h = absurd (cc (ap (λ x. x.0) h))

-- Every forward's port can be listened on.
abbrev pub IsListenable : (Bytes × Bytes → Bool) → List PortForward → Type 0
IsListenable can_listen = All (λ p. can_listen (listen_addr p) ≡ true)

-- The lock was free, and its file could be made.
abbrev pub IsFreed : World → Bytes → Disk → Type 0
IsFreed w dir m =
    (w.lock_host.can_create ≡ true) × IsFree w.lock_host (lock_content (m (lock_path dir)))

new_state-ok :
    (can : Bool) (dir : Bytes) (d d' : Disk) (a : Bytes)
    → new_state can dir d ≡ (ok a, d')
    → dir ≡ a
unfolding new_state
new_state-ok can dir d d' a h = elim (Bool-cases (is_empty dir)) [
  | inl y ↦ absurd (cc (ap (λ x. x.0) (rw (new_state, y) at h)))
  | inr n ↦ elim (Bool-cases can) [
    | inl y ↦ ok-injective (ap (λ x. x.0) (rw (new_state, n, y) at h))
    | inr m ↦ absurd (cc (ap (λ x. x.0) (rw (new_state, n, m) at h)))
  ]
]

module _ (sha : Bytes → Bytes) (open_archive : Bytes → Option Archive)
    (encode : Bytes → List (Bytes × Bytes) → Bytes) (blank : Bytes)
    (qemu_img : Bytes → Bytes → Bytes → Bytes → Disk → Bool × Disk) where
  -- The steps of a start before its lock, from the one disk to the other: QEMU is found, the cache is
  -- made, the components are resolved, and the directory of the machine is made.
  pub record Reached (w : World) (a : App) (d m : Disk) : Type 0 where
    pub bins : Bytes × Bytes
    pub root : Bytes
    pub kernel : Component
    pub initrd : Component
    pub rootfs : Component
    pub found : Disk
    pub cached : Disk
    pub with_kernel : Disk
    pub with_initrd : Disk
    pub with_rootfs : Disk
    pub finds : qemu_paths sha open_archive w a d ≡ (ok bins, found)
    pub caches : call no_cache (new_cache (oci_root a) w.cache_io) found ≡ (ok root, cached)
    pub resolves_kernel :
        resolve_named sha open_archive w a root (codes "kernel") a.cfg.components.kernel cached
        ≡ (ok kernel, with_kernel)
    pub resolves_initrd :
        resolve_named sha open_archive w a root (codes "initrd") a.cfg.components.initrd with_kernel
        ≡ (ok initrd, with_initrd)
    pub resolves_rootfs :
        resolve_named sha open_archive w a root (codes "rootfs") a.cfg.components.rootfs with_initrd
        ≡ (ok rootfs, with_rootfs)
    pub makes : new_state w.state_ok (state_dir a) with_rootfs ≡ (ok (state_dir a), m)

  -- The last step of a start that succeeds, and what was checked before it
  pub record Booting (w : World) (a : App) (d : Disk) : Type 0 where
    pub bins : Bytes × Bytes
    pub kernel : Component
    pub initrd : Component
    pub rootfs : Component
    pub unlocked : Disk
    pub disk : Disk
    pub reached : Reached w a d unlocked
    pub references : has_references a.cfg ≡ true
    pub lock : (take_lock w (state_dir a) unlocked).0 ≡ ok tt
    pub booted :
        (boot_locked sha open_archive encode blank qemu_img w a bins
          (state_dir a)
          (spec_for w a kernel initrd)
          rootfs
          disk).0
        ≡ ok tt

  pub start_qemu-Booting :
      (w : World) (a : App) (d : Disk)
      → (start_qemu sha open_archive encode blank qemu_img w a d).0 ≡ ok tt
      → Booting w a d
  unfolding start_qemu
  start_qemu-Booting w a d e =
      let (u, d1, h1, e1) = follow-ok (require (has_references a.cfg) missing_references d) _ e in
      let (bins, d2, h2, e2) = follow-ok (qemu_paths sha open_archive w a d1) _ e1 in
      let (root, d3, h3, e3) =
        follow-ok (call no_cache (new_cache (oci_root a) w.cache_io) d2) _ e2 in
      let (kernel, d4, h4, e4) =
        follow-ok
          (resolve_named sha open_archive w a root (codes "kernel") a.cfg.components.kernel d3) _
          e3 in
      let (initrd, d5, h5, e5) =
        follow-ok
          (resolve_named sha open_archive w a root (codes "initrd") a.cfg.components.initrd d4) _
          e4 in
      let (rootfs, d6, h6, e6) =
        follow-ok
          (resolve_named sha open_archive w a root (codes "rootfs") a.cfg.components.rootfs d5) _
          e5 in
      let (dir, d7, h7, e7) = follow-ok (new_state w.state_ok (state_dir a) d6) _ e6 in
      let (v, d8, h8, e8) = follow-ok (call locked (take_lock w dir) d7) _ e7 in
      let same : state_dir a ≡ dir = new_state-ok w.state_ok (state_dir a) d6 d7 dir h7 in
      record {
        bins = bins;
        kernel = kernel;
        initrd = initrd;
        rootfs = rootfs;
        unlocked = d7;
        disk = d8;
        reached = record {
          bins = bins;
          root = root;
          kernel = kernel;
          initrd = initrd;
          rootfs = rootfs;
          found = d2;
          cached = d3;
          with_kernel = d4;
          with_initrd = d5;
          with_rootfs = d6;
          finds =
              subst (λ x. qemu_paths sha open_archive w a x ≡ (ok bins, d2))
                (require_same (has_references a.cfg) missing_references d d1 h1) h2;
          caches = h3;
          resolves_kernel = h4;
          resolves_initrd = h5;
          resolves_rootfs = h6;
          makes = subst (λ x. new_state w.state_ok (state_dir a) d6 ≡ (ok x, d7)) (sym same) h7;
        };
        references = require-ok (has_references a.cfg) missing_references d d1 h1;
        lock =
            subst (λ x. (take_lock w x d7).0 ≡ ok tt) (sym same)
              (wrapped-ok locked (take_lock w dir d7) d8 tt h8);
        booted =
            subst
              (λ x.
                (boot_locked sha open_archive encode blank qemu_img w a bins x
                  (spec_for w a kernel initrd) rootfs d8).0
                ≡ ok tt)
              (sym same) e8;
      }
