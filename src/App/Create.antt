-- ===== src/App/Create.antt =====
-- internal/app/app.go: `New` resolves the directories, loads and checks the configuration, and
-- checks the name of the engine.
use dvm.Base.{Bytes, codes, ◌≟◌, Bool, false, ◌||◌, if◌then◌else◌}
use dvm.Base.{none, some, Result, ok, err, guard, ◌>>=◌, ◌>>◌}
use dvm.Host.{Host}
use dvm.Platform.{Dirs, default_dirs, guest_arch_default}
use dvm.Component.{file_abs}
use dvm.Config.{Config, LoadError, Unmarshal, load_config, ConfigError, validate}
use dvm.App.Flags.{Flags, pick, merge_flags}

pub data AppError : Type 0 where
  load : LoadError → AppError
  invalid : ConfigError → AppError
  bad_engine : Bytes → AppError

pub record App : Type 0 where
  pub cfg : Config
  pub dirs : Dirs
  pub engine : Bytes
  pub flag_reset : Bool
  pub flag_console : Bool

abbrev abs_or_same : Host → Bytes → Bytes
abs_or_same h p = elim (file_abs h p) [ none ↦ p | some q ↦ q ]

unfoldable pub resolve_dirs : Host → Flags → Dirs
resolve_dirs h f = record {
  cache = abs_or_same h (pick f.cache_dir default_dirs.cache);
  state = abs_or_same h (pick f.data_dir default_dirs.state);
}

abbrev pub lift_load : {A : Type 0} → Result LoadError A → Result AppError A
lift_load (ok a) = ok a
lift_load (err e) = err (load e)

abbrev pub lift_valid : {A : Type 0} → Result ConfigError A → Result AppError A
lift_valid (ok a) = ok a
lift_valid (err e) = err (invalid e)

abbrev pub known_engine : Bytes → Bool
known_engine e = e ≟ codes "auto" || e ≟ codes "qemu" || e ≟ codes "vz"

abbrev pub build_app : Host → Flags → Config → App
build_app h f file = record {
  cfg = merge_flags file f;
  dirs = resolve_dirs h f;
  engine = pick f.engine (codes "auto");
  flag_reset = false;
  flag_console = false;
}

-- `New`
unfoldable pub new_app : Host → Unmarshal → Flags → Result AppError App
new_app h unmarshal f = do
  file ← lift_load (load_config h unmarshal f.config_path)
  lift_valid (validate (merge_flags file f))
  guard (known_engine (pick f.engine (codes "auto"))) (bad_engine (pick f.engine (codes "auto")))
  ok (build_app h f file)

-- `SetRuntimeFlags`
unfoldable pub set_runtime_flags : Bool → Bool → App → App
set_runtime_flags reset console a = record a { flag_reset = reset; flag_console = console }

-- `guestArch`
unfoldable pub guest_arch : Host → App → Bytes
guest_arch h a = pick a.cfg.guest.arch (guest_arch_default h)

-- `ociArch`
unfoldable pub oci_arch : Bytes → Bytes
oci_arch arch =
    if arch ≟ codes "arm64" || arch ≟ codes "aarch64" then codes "arm64" else codes "amd64"
