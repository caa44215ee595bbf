-- ===== src/Vm/Seed.antt =====
-- internal/vm/seed.go: the cloud-init seed. `sha` is the hexadecimal SHA-256; `encode` is the FAT32
-- image of a label and its files, and `blank` an image that is not formatted yet.
use dvm.Base.{
  Bytes, codes, is_empty, trim_space, take, Bool, not, List, [], ◌∷◌, ◌++◌, if◌then◌else◌,
}
use dvm.Base.{Result, ok, err}
use dvm.Cache.Disk.{Disk, write_file, remove}

pub record SeedParams : Type 0 where
  pub hostname : Bytes
  pub instance_id : Bytes
  pub username : Bytes
  pub password : Bytes
  pub ssh_key : Bytes
  pub include_network_config : Bool

abbrev pub or_text : Bytes → Bytes → Bytes
or_text s fallback = if is_empty s then fallback else s

unfoldable pub meta_data : SeedParams → Bytes
meta_data p =
    codes "instance-id: "
    ++ (p.instance_id ++ (codes "\nlocal-hostname: " ++ (p.hostname ++ codes "\n")))

unfoldable pub password_part : SeedParams → Bytes
password_part p =
    if is_empty p.password
    then []
    else codes "ssh_pwauth: true\nchpasswd:\n  expire: false\n  users:\n    - name: "
      ++ (p.username
          ++ (codes "\n      password: " ++ (p.password ++ codes "\n      type: text\n")))

unfoldable pub key_part : SeedParams → Bytes
key_part p =
    if is_empty p.ssh_key
    then []
    else codes "ssh_authorized_keys:\n  - " ++ (trim_space p.ssh_key ++ codes "\n")

unfoldable pub user_data : SeedParams → Bytes
user_data p =
    codes "#cloud-config\nhostname: "
    ++ (p.hostname ++ (codes "\n" ++ (password_part p ++ key_part p)))

abbrev pub network_config : Bytes
network_config =
    codes "version: 2\nethernets:\n  alleth:\n    match:\n      name: \"e*\"\n    dhcp4: true\n"

-- The files of the image; the code goes through them in an order that Go leaves open.
unfoldable pub seed_files : SeedParams → List (Bytes × Bytes)
seed_files p =
    (codes "/meta-data", meta_data p)
    ∷ (codes "/user-data", user_data p)
    ∷ (if p.include_network_config then (codes "/network-config", network_config) ∷ [] else [])

pub data SeedError : Type 0 where
  create_image : SeedError
  format_image : SeedError
  write_seed_file : Bytes → SeedError

-- Whether the image can be made, formatted, and each file written.
pub record SeedIo : Type 0 where
  pub create_ok : Bool
  pub format_ok : Bool
  pub write_ok : Bytes → Bool

-- The files written so far are the last argument; an error leaves these in the image.
unfoldable pub write_files :
    SeedIo
    → List (Bytes × Bytes)
    → List (Bytes × Bytes)
    → Result SeedError (Unit {0}) × List (Bytes × Bytes)
write_files io [] written = (ok tt, written)
write_files io ((name, content) ∷ files) written =
    let rest = write_files io files (written ++ ((name, content) ∷ [])) in
    if io.write_ok name then rest else (err (write_seed_file name), written)

module _ (sha : Bytes → Bytes) (encode : Bytes → List (Bytes × Bytes) → Bytes) (blank : Bytes) where
  unfoldable pub instance_id_for : Bytes → Bytes
  instance_id_for seed = codes "dvm-" ++ take 12 (sha seed)

  -- The defaults at the head of `WriteSeed`
  unfoldable pub with_defaults : Bytes → SeedParams → SeedParams
  with_defaults path p = record p {
    username = or_text p.username (codes "ubuntu");
    hostname = or_text p.hostname (codes "dvm");
    instance_id = or_text p.instance_id (instance_id_for path);
  }

  unfoldable pub image_written :
      Bytes
      → Disk
      → Result SeedError (Unit {0}) × List (Bytes × Bytes)
      → Result SeedError (Unit {0}) × Disk
  image_written path d (r, files) = (r, write_file path (encode (codes "CIDATA") files) d)

  -- `WriteSeed`
  unfoldable pub write_seed :
      SeedIo → Bytes → SeedParams → Disk → Result SeedError (Unit {0}) × Disk
  write_seed io path p d =
      if not io.create_ok
      then (err create_image, remove path d)
      else if not io.format_ok
      then (err format_image, write_file path blank (remove path d))
      else image_written path (remove path d)
          (write_files io (seed_files (with_defaults path p)) [])
