-- ===== src/App/StartTests.antt =====
-- A start at a concrete input: local components, a lock that is free, and a port that is taken.
use dvm.App.Samples.{web, cfg, app, vz_world, no_sha, no_archive, no_image, no_qemu_img, base_disk}
use dvm.Base.{map}
use dvm.App.Manage.{app_clean}
use dvm.Base.{◌≟◌, join, split}
use dvm.App.Forwards.{port_forwards}
use dvm.Base.{
  Bytes, codes, pos, true, false, Option, none, some, List, [], ◌∷◌, ◌≡◌, refl, sym, subst, err,
}
use dvm.Cache.Disk.{Disk}
use dvm.Cache.Samples.{empty_disk}
use dvm.Qemu.{Archive}
use dvm.Vm
use dvm.Vm.{LockHost}
use dvm.App.Create.{App}
use dvm.App.Forwards.{forward}
use dvm.App.Flow.{port_taken}
use dvm.App.Start.{World, state_dir}
use dvm.App.StartVz.{start}
use dvm.Base.{if◌then◌else◌}
use dvm.Cache.Disk.{file}
use dvm.App.Start.{start_qemu, has_references, take_lock}
use dvm.App.Releasing.{HadLock, start-lock_path}

port_is_taken :
    (start no_sha no_archive no_image [] no_qemu_img vz_world app empty_disk).0
    ≡ err (port_taken (forward (codes "127.0.0.1") web))
unfolding start ◌≟◌ dvm.App.Engine.resolve_engine dvm.App.Start.start_qemu
    dvm.App.Start.has_references cfg dvm.App.Start.qemu_paths dvm.App.Start.qemu_dir
    dvm.App.Start.absolute dvm.Component.abs_path dvm.Component.file_abs dvm.Base.has_prefix
    dvm.App.Start.find_binary dvm.App.Start.stat_ok dvm.Cache.new_cache dvm.App.Start.oci_root
    dvm.Base.FilePath.join_path join split dvm.Base.FilePath.clean dvm.App.Start.resolve_named
    dvm.Component.resolve dvm.Component.dispatch dvm.Component.parse_ref dvm.Component.looks_local
    dvm.Component.looks_registry dvm.Component.resolve_local dvm.App.Start.new_state state_dir
    dvm.Platform.state_instance dvm.App.Start.take_lock dvm.Vm.acquire_lock dvm.Vm.try_lock
    dvm.App.Start.lock_written dvm.App.Start.boot_locked dvm.App.Start.releasing dvm.App.Start.boot
    dvm.Vm.check_ports_free dvm.App.Start.spec_for forward port_forwards dvm.Vm.lock_path
    dvm.Cache.Disk.mkdir_all
port_is_taken = refl

start-lock_path_example :
    (start no_sha no_archive no_image [] no_qemu_img vz_world app empty_disk).1
      (Vm.lock_path (state_dir app))
    ≡ none
start-lock_path_example =
    start-lock_path no_sha no_archive no_image [] no_qemu_img vz_world app empty_disk refl
      (subst HadLock (sym port_is_taken) tt)

cleaned : (app_clean (true, true) false app base_disk).0 ≡ true
unfolding app_clean
cleaned = refl
