-- ===== src/App/Seeding.antt =====
-- internal/app/app.go: `buildSeed` and `extraCmdline`.
use dvm.Base.{
  Bytes, codes, ◌≟◌, is_empty, Bool, not, ◌&&◌, Option, none, some, List, [], ◌∷◌, if◌then◌else◌,
  Result, ok, err,
}
use dvm.Host.{Host}
use dvm.Component.{abs_path}
use dvm.Config.{Config, ip_cloud_init}
use dvm.Qemu.{Backend}
use dvm.Vm.{SeedParams}
use dvm.App.Forwards.{seed_username}

pub data SeedingError : Type 0 where
  bad_seed_path : SeedingError
  unreadable_key : Bytes → SeedingError

-- The parameters of a seed to generate, or the path of an image.
abbrev pub Seeding : Type 0
Seeding = Option SeedParams × Bytes

abbrev pub image_at : Option Bytes → Result SeedingError Seeding
image_at none = err bad_seed_path
image_at (some abs) = ok (none, abs)

unfoldable pub seed_params : Config → Bytes → SeedParams
seed_params c key = record {
  hostname = c.name;
  instance_id = [];
  username = seed_username c;
  password = c.seed.password;
  ssh_key = key;
  include_network_config = c.network.ip_config ≟ ip_cloud_init;
}

unfoldable pub with_key : Host → Config → Result SeedingError Seeding
with_key h c =
    if is_empty c.seed.ssh_key
    then ok (some (seed_params c []), [])
    else elim (h.read_file c.seed.ssh_key) [
      | none ↦ err (unreadable_key c.seed.ssh_key)
      | some key ↦ ok (some (seed_params c key), [])
    ]

-- Nothing to put into a seed
abbrev pub is_idle : Config → Bool
is_idle c =
    is_empty c.seed.password && is_empty c.seed.ssh_key && not (c.network.ip_config ≟ ip_cloud_init)

-- `buildSeed`
unfoldable pub build_seed : Host → Config → Result SeedingError Seeding
build_seed h c =
    if not (is_empty c.seed.path)
    then image_at (abs_path h c.seed.path)
    else if not c.seed.enabled
    then ok (none, [])
    else if is_idle c
    then ok (none, [])
    else with_key h c

-- `extraCmdline`
unfoldable pub extra_cmdline : Config → Backend → List Bytes
extra_cmdline c net =
    let frag = net.kernel_ip_param c.network.ip_config (codes "eth0") in
    if is_empty frag then [] else frag ∷ []
