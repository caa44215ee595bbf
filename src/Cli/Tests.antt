-- ===== src/Cli/Tests.antt =====
-- Tests of the command line, and its theorems at concrete arguments.
use dvm.Base.{
  codes, ◌≟◌, has_prefix, [], ◌∷◌, ◌≡◌, refl, Bytes, List, true, false, none, some, ok, err, pos,
}
use dvm.Base.{inl, inr, All, arith, sym, subst, ◌↔◌}
use dvm.App.Samples.{cfg, no_sha, no_archive, no_image, base_disk, qemu_img}
use dvm.Cli.Commands.{split_command, action_of, run_command, print_version, print_usage, Parsed}
use dvm.Cli.Arguments.{text, switch, parse_args, refused, helped, find_flag}
use dvm.Cli.Table.{unset, flag_table, common_flags, add_port, text_flag, switch_flag}
use dvm.Cli.Spelling.{
  Setting, joined, apart, bare, IsSetting, write_args, parse_args-write_args, set_all,
}
use dvm.Cli.Repeated.{values_of, parse_args-values_of}
use dvm.Cli.Samples.{machine}
use dvm.Cli.Main.{printed, misused, main_program}
use dvm.Cli.Ending.{split_command-print_usage, IsCleaned, main_program-IsCleaned}
use dvm.Cli.Starting.{IsBooted, main_program-IsBooted}

default_command : split_command (codes "--debug" ∷ []) ≡ (codes "start", codes "--debug" ∷ [])
unfolding split_command has_prefix
default_command = refl

known_commands :
    (action_of (codes "clean") ≡ run_command) × (action_of (codes "version") ≡ print_version)
unfolding action_of ◌≟◌
known_commands = (refl, refl)

-- --port 8080:80 -port=9090:90 --reset=false
abbrev web_port : Setting Parsed
web_port = record {
  name = codes "port";
  value = codes "8080:80";
  spelling = apart true;
  setter = text add_port;
}

abbrev settings : List (Setting Parsed)
settings =
    web_port
    ∷ record {
      name = codes "port";
      value = codes "9090:90";
      spelling = joined false;
      setter = text add_port;
    }
    ∷ record {
      name = codes "reset";
      value = codes "0";
      spelling = joined true;
      setter = switch_flag λ v f. record f { reset = v };
    }
    ∷ []

written :
    write_args settings
    ≡ codes "--port" ∷ codes "8080:80" ∷ codes "-port=9090:90" ∷ codes "--reset=0" ∷ []
unfolding write_args dvm.Cli.Spelling.spell
written = refl

valid_settings : All (IsSetting (flag_table (codes "start"))) settings
unfolding flag_table common_flags find_flag ◌≟◌
valid_settings = ((omega arith, refl, tt), ((omega arith, refl, tt), ((omega arith, refl, tt), tt)))

abbrev two_ports : Parsed
two_ports = record unset { ports = codes "8080:80" ∷ codes "9090:90" ∷ [] }

accepted : parse_args (flag_table (codes "start")) none (write_args settings) unset ≡ ok two_ports
unfolding write_args parse_args dvm.Cli.Spelling.spell dvm.Base.cut flag_table ◌≟◌ common_flags
    dvm.Cli.Numbers.parse_bool
accepted = refl

parse_args-values_of_example :
    (two_ports.ports ≡ values_of (codes "port") settings)
    × (two_ports.qemu_args ≡ values_of (codes "qemu-arg") settings)
parse_args-values_of_example =
    parse_args-values_of (codes "start") settings two_ports valid_settings accepted

-- A flag that is not there, one with no value, and -h
refusals :
    (parse_args common_flags none (codes "--with-state" ∷ []) unset ≡ err refused)
    × (parse_args common_flags none (codes "--memory" ∷ []) unset ≡ err refused)
    × (parse_args common_flags none (codes "--memory" ∷ codes "4G" ∷ []) unset ≡ err refused)
    × (parse_args common_flags none (codes "-h" ∷ []) unset ≡ err helped)
    × (parse_args common_flags none (codes "up" ∷ codes "-h" ∷ []) unset ≡ ok unset)
unfolding parse_args dvm.Base.cut common_flags ◌≟◌ dvm.Cli.Numbers.parse_int
refusals = (refl, refl, refl, refl, refl)

split_command-print_usage_example :
    (action_of (split_command (codes "-h" ∷ [])).0 ≡ print_usage)
    ↔ ((rest : List Bytes) × (codes "-h" ∷ [] ≡ codes "help" ∷ rest))
split_command-print_usage_example = split_command-print_usage (codes "-h" ∷ [])

abbrev dirs : List Bytes
dirs = codes "--data-dir=/s" ∷ codes "--cache-dir" ∷ codes "/c" ∷ []

misused_main :
    (main_program no_sha no_archive no_image [] qemu_img machine (codes "up" ∷ []) base_disk).0
    ≡ misused
unfolding main_program action_of ◌≟◌ split_command has_prefix
misused_main = refl

abbrev clean_settings : List (Setting Parsed)
clean_settings =
    record {
      name = codes "data-dir";
      value = codes "/s";
      spelling = joined true;
      setter = text_flag λ v f. record f { data_dir = v };
    }
    ∷ record {
      name = codes "cache-dir";
      value = codes "/c";
      spelling = apart true;
      setter = text_flag λ v f. record f { cache_dir = v };
    }
    ∷ record {
      name = codes "with-state";
      value = codes "true";
      spelling = bare true;
      setter = switch λ v p. record p { with_state = v };
    }
    ∷ []

valid_clean_settings : All (IsSetting (flag_table (codes "clean"))) clean_settings
unfolding flag_table common_flags find_flag ◌≟◌
valid_clean_settings =
    ((omega arith, refl, tt), ((omega arith, refl, tt), ((omega arith, refl, refl), tt)))

cleaned_main :
    (main_program no_sha no_archive no_image [] qemu_img machine
      (codes "clean" ∷ write_args clean_settings)
      base_disk).0
    ≡ printed []
unfolding write_args dvm.Cli.Spelling.spell main_program action_of ◌≟◌ split_command has_prefix
    parse_args dvm.Base.cut flag_table common_flags dvm.App.new_app dvm.Config.load_config
    dvm.Config.resolve_config_path dvm.Cli.Commands.finish_flags dvm.Config.first_file
    dvm.Config.read_config_source dvm.Config.validate dvm.Config.mode_valid
    dvm.App.Flags.merge_flags dvm.Config.check_ports dvm.Config.default_config cfg
    dvm.Cli.Commands.task_of dvm.App.app_clean dvm.App.resolve_dirs dvm.App.set_runtime_flags
    dvm.App.start dvm.App.resolve_engine dvm.App.merge_ports
cleaned_main = refl

main_program-IsCleaned_example :
    IsCleaned no_sha no_archive no_image [] qemu_img machine clean_settings base_disk
      (main_program no_sha no_archive no_image [] qemu_img machine
        (codes "clean" ∷ write_args clean_settings)
        base_disk).1
main_program-IsCleaned_example =
    main_program-IsCleaned no_sha no_archive no_image [] qemu_img machine clean_settings base_disk
      [] valid_clean_settings cleaned_main

booted_main :
    (main_program no_sha no_archive no_image [] qemu_img machine dirs base_disk).0 ≡ printed []
unfolding main_program action_of ◌≟◌ split_command has_prefix parse_args dvm.Base.cut flag_table
    common_flags dvm.App.new_app dvm.Config.load_config dvm.Config.resolve_config_path
    dvm.Cli.Commands.finish_flags dvm.Config.first_file dvm.Config.read_config_source
    dvm.Config.validate dvm.Config.mode_valid dvm.App.Flags.merge_flags dvm.Config.check_ports
    dvm.Config.default_config cfg dvm.Cli.Commands.task_of dvm.App.app_clean dvm.App.resolve_dirs
    dvm.App.set_runtime_flags dvm.App.start dvm.App.resolve_engine dvm.App.merge_ports
    dvm.App.qemu_paths dvm.App.qemu_dir dvm.App.absolute dvm.Component.abs_path
    dvm.Component.file_abs dvm.App.find_binary dvm.App.stat_ok dvm.Cache.new_cache dvm.App.oci_root
    dvm.Base.FilePath.join_path dvm.Base.join dvm.Base.split dvm.Base.FilePath.clean
    dvm.App.resolve_named dvm.Component.resolve dvm.Component.dispatch dvm.Component.parse_ref
    dvm.Component.looks_local dvm.Component.looks_registry dvm.Component.resolve_local
    dvm.App.new_state dvm.App.state_dir dvm.Platform.state_instance dvm.Vm.acquire_lock
    dvm.Vm.try_lock dvm.App.lock_written dvm.App.boot_locked dvm.App.releasing dvm.App.boot
    dvm.Vm.check_ports_free dvm.App.spec_for dvm.App.forward dvm.App.port_forwards dvm.Vm.lock_path
    dvm.Cache.Disk.mkdir_all dvm.Vm.run dvm.Vm.prepare_disk dvm.Vm.with_disk dvm.Vm.create_after
    dvm.Vm.remove_overlay dvm.Vm.overlay_path dvm.Vm.create_overlay dvm.Vm.run_create
    dvm.Vm.disk_format dvm.Vm.drop_overlay dvm.Vm.with_seed dvm.Vm.prepare_seed dvm.Vm.with_channels
    dvm.Vm.control_channels dvm.Vm.launched dvm.Vm.start_with_fallback dvm.Vm.try_accels
    dvm.Vm.candidates_or dvm.Qemu.all_args dvm.Qemu.arch_params dvm.Qemu.build_args
    dvm.Qemu.machine_args dvm.Vm.after_start dvm.Vm.full_spec dvm.Vm.unix_channels dvm.Vm.supervise
    dvm.Vm.foreground dvm.Vm.after_ending dvm.Cache.Disk.write_file dvm.App.start_qemu
    dvm.App.has_references dvm.App.take_lock dvm.App.options_for dvm.App.candidates
    dvm.App.preference_for dvm.Qemu.accel_candidates dvm.Qemu.collect_accels dvm.Qemu.is_skipped
    dvm.App.build_seed dvm.App.guest_arch dvm.Platform.guest_arch_default dvm.App.with_key
    dvm.Vm.write_seed dvm.Vm.image_written dvm.Vm.write_files dvm.Vm.seed_files dvm.Vm.with_defaults
    dvm.App.seed_params dvm.Qemu.is_seen dvm.Qemu.accel_available dvm.Vm.launch_of
    dvm.App.vz_supported
booted_main = refl

main_program-IsBooted_example :
    IsBooted no_sha no_archive no_image [] qemu_img machine
      (codes "start")
      dirs
      (main_program no_sha no_archive no_image [] qemu_img machine dirs base_disk).1
unfolding split_command has_prefix
main_program-IsBooted_example =
    main_program-IsBooted no_sha no_archive no_image [] qemu_img machine dirs base_disk []
      (inl refl) refl booted_main
