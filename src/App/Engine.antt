-- ===== src/App/Engine.antt =====
-- internal/app/app.go: the choice between the engines.
use dvm.Base.{Bytes, codes, ◌≟◌, is_empty, contains, has_suffix, to_lower, Bool, not, ◌||◌, ◌&&◌}
use dvm.Base.{if◌then◌else◌}
use dvm.Config.{Config}
use dvm.App.Create.{App}

-- `vzRootfsConfigured`
unfoldable pub vz_rootfs_configured : Config → Bool
vz_rootfs_configured c =
    let r = to_lower c.components.rootfs in
    not (is_empty c.components.rootfs_vz)
    || contains r (codes "ext4")
    || contains r (codes "raw")
    || has_suffix r (codes ".img")

-- `resolveEngine`, given whether the vz engine is supported
unfoldable pub resolve_engine : Bool → App → Bytes
resolve_engine supported a =
    if a.engine ≟ codes "qemu" || a.engine ≟ codes "vz"
    then a.engine
    else if supported && vz_rootfs_configured a.cfg
    then codes "vz"
    else codes "qemu"
