-- ===== src/Vm/ConsoleTests.antt =====
-- Tests of the console and of the seed, and their theorems at concrete inputs.
use dvm.Base.{
  Bytes, codes, trim_space, Lacks, true, false, none, List, [], ◌∷◌, ◌++◌, ok, ◌≡◌, refl, arith,
}
use dvm.Cache.Disk.{Disk}
use dvm.Vm.Seed.{SeedParams, SeedIo, user_data, seed_files, with_defaults, write_seed}

abbrev params : SeedParams
params = record {
  hostname = codes "vm";
  instance_id = [];
  username = codes "u";
  password = codes "p";
  ssh_key = codes "k\n";
  include_network_config = false;
}

trimmed : trim_space (codes "k\n") ≡ codes "k"
unfolding trim_space
trimmed = refl

one_line : Lacks b'\n' (trim_space (codes "k\n"))
one_line = rw trimmed (omega arith)

abbrev seed_io : SeedIo
seed_io = record { create_ok = true; format_ok = true; write_ok = λ n. true }

abbrev no_sha : Bytes → Bytes
no_sha s = s

abbrev names_only : Bytes → List (Bytes × Bytes) → Bytes
names_only label [] = label
names_only label ((name, content) ∷ files) = names_only (label ++ name) files

abbrev no_files : Disk
no_files p = none

written : (write_seed no_sha names_only [] seed_io (codes "/s/seed.img") params no_files).0 ≡ ok tt
unfolding write_seed dvm.Vm.Seed.image_written dvm.Vm.Seed.write_files seed_files with_defaults
written = refl
