-- ===== src/Samples.antt =====
-- Test data: a Linux host with two files on its disk.
use dvm.Base.{codes, ◌≟◌, none, some, if◌then◌else◌, false}
use dvm.Host.{Host, FileInfo}

abbrev pub vmlinux_info : FileInfo
vmlinux_info = record { base_name = codes "vmlinux"; is_dir = false; size = 9 }

abbrev pub linux_host : Host
linux_host = record {
  goos = codes "linux";
  goarch = codes "amd64";
  stat = λ p.
      if p ≟ codes "/vm/vmlinux"
      then some vmlinux_info
      else if p ≟ codes "dvm.yaml"
      then some vmlinux_info
      else none;
  read_file = λ p. if p ≟ codes "dvm.yaml" then some (codes "name: lab") else none;
  user_home_dir = some (codes "/home/u");
  user_config_dir = some (codes "/home/u/.config");
  getwd = some (codes "/vm");
  open_rw = λ p. p ≟ codes "/dev/kvm";
  http_get = λ u. some (404, codes "");
}
