-- ===== src/Platform.antt =====
-- internal/platform/dirs.go: base directories and what is known of the host.
use dvm.Base.{Bytes, codes, ◌≟◌, is_empty, ◌&&◌, [], ◌∷◌, ◌++◌, if◌then◌else◌}
use dvm.Base.FilePath.{join_path}
use dvm.Host.{Host}

pub record Dirs : Type 0 where
  pub cache : Bytes
  pub state : Bytes

-- `Default`
abbrev pub default_dirs : Dirs
default_dirs = record { cache = codes ".cache"; state = codes ".state" }

-- `Target`
unfoldable pub target : Host → Bytes
target h = h.goos ++ (b'/' ∷ h.goarch)

-- `GuestArchDefault`
unfoldable pub guest_arch_default : Host → Bytes
guest_arch_default h =
    if h.goos ≟ codes "darwin" && h.goarch ≟ codes "arm64" then codes "arm64" else codes "x86_64"

-- `CacheRuntime`
unfoldable pub cache_runtime : Dirs → Bytes → Bytes
cache_runtime d asset_version = join_path (d.cache ∷ codes "runtime" ∷ asset_version ∷ [])

-- `StateInstance`
unfoldable pub state_instance : Dirs → Bytes → Bytes
state_instance d name =
    join_path (d.state ∷ codes "state" ∷ (if is_empty name then codes "default" else name) ∷ [])
