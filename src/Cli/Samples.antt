-- ===== src/Cli/Samples.antt =====
-- Test data: a machine whose configuration names local components.
use dvm.Base.{codes, true, none, some, []}
use dvm.App.Samples.{cfg, vz_world, free_world}
use dvm.Cli.Main.{Machine}

abbrev pub machine : Machine
machine = record {
  vz = record vz_world { world = free_world };
  unmarshal = λ text c. some cfg;
  build = record { app_version = codes "dev"; git_commit = []; build_date = [] };
  settings = none;
  can_clean = (true, true);
}
