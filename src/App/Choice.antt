-- ===== src/App/Choice.antt =====
-- Which engine runs.
use dvm.Base.{codes, ≟_iff, Bool, true}
use dvm.Base.{◌≡◌, ◌⊎◌, ◌↔◌, arith}
use dvm.App.Create.{App}
use dvm.App.Engine.{vz_rootfs_configured, resolve_engine}
use dvm.App.Merging.{IsEngine}

-- Every application runs under one of two engines. It is vz exactly if the user asked for it, or if
-- the choice was left open, vz is supported, and a raw root file system is configured.
pub resolve_engine-vz :
    (supported : Bool) (a : App)
    → IsEngine a.engine
    → ((resolve_engine supported a ≡ codes "vz") ⊎ (resolve_engine supported a ≡ codes "qemu"))
      × ((resolve_engine supported a ≡ codes "vz") ↔ (
          (a.engine ≡ codes "vz")
          ⊎ (a.engine ≡ codes "auto") × (supported ≡ true) × (vz_rootfs_configured a.cfg ≡ true)))
unfolding resolve_engine
resolve_engine-vz supported a h = (
  ground (arith, ≟_iff a.engine (codes "qemu"), ≟_iff a.engine (codes "vz")),
  (
    λ k. ground (arith, ≟_iff a.engine (codes "qemu"), ≟_iff a.engine (codes "vz")),
    λ k. ground (arith, ≟_iff a.engine (codes "qemu"), ≟_iff a.engine (codes "vz")),
  ),
)
