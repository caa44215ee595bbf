-- ===== src/Vz/NetworkTests.antt =====
-- Tests of the network of a guest, and its theorems at concrete inputs.
use dvm.Base.{
  leb_int, ok, ℕ, codes, ◌≟◌, pos, true, false, none, some, List, [], ◌∷◌, map, ◌≡◌, refl, All,
  trim_space, split, Bytes,
}
use dvm.Vm.{connected, refused, over, Round}
use dvm.Vm.Waiting.{connections}
use dvm.Vz.Addresses.{Poll, lookup_lease, wait_guest_ip}
use dvm.Cache.Disk.{Disk}
use dvm.Vz.Supervise.{state_other, interrupted, deadline}
use dvm.Vz.Running.{cloned, IsRun, run-IsRun}
use dvm.Vz.Run.{Site, run, Options}
use dvm.Vz.Network.{
  manage_network, proxy_port, client, closed, relayed_and_closed, only_closed, join_host_port,
}
use dvm.Vz.Proxies.{network_of, manage_network-network_of}
use dvm.Vz.Leases.{
  Field, ip_field, hw_field, other, IsField, blocks, last_lease, lookup_lease-last_lease,
}

abbrev mac : List ℕ
mac = 2 ∷ 10 ∷ []

abbrev leases : Bytes
leases =
    codes
      "{\n\tname=lab\n\tip_address=192.168.64.2\n\thw_address=1,2:a\n}\n{\n\thw_address=1,2:b\n\tip_address=192.168.64.3\n}\n"

abbrev lab : List Field
lab = other (codes "name=lab") ∷ ip_field (codes "192.168.64.2") ∷ hw_field (codes "1,2:a") ∷ []

abbrev stranger : List Field
stranger = hw_field (codes "1,2:b") ∷ ip_field (codes "192.168.64.3") ∷ []

leases_lines : map trim_space (split leases b'\n') ≡ blocks (lab ∷ stranger ∷ []) ([] ∷ [])
unfolding trim_space split
leases_lines = refl

fields_of_leases : All (All IsField) (lab ∷ stranger ∷ [])
unfolding ◌≟◌ dvm.Base.has_prefix
fields_of_leases = (((refl, refl, refl, refl), (tt, (tt, tt))), ((tt, (tt, tt)), tt))

lookup_lease-last_lease_example :
    lookup_lease mac (some leases) ≡ last_lease mac (lab ∷ stranger ∷ []) []
unfolding ◌≟◌ dvm.Base.has_prefix
lookup_lease-last_lease_example =
    lookup_lease-last_lease mac leases (lab ∷ stranger ∷ []) ([] ∷ []) leases_lines fields_of_leases
      ((refl, refl, refl, refl), tt)

found : lookup_lease mac (some leases) ≡ codes "192.168.64.2"
unfolding lookup_lease dvm.Vz.Addresses.scan_leases split dvm.Vz.Addresses.lease_line ◌≟◌ trim_space
    dvm.Base.has_prefix dvm.Base.trim_prefix dvm.Vz.Addresses.mac_equal dvm.Vz.Addresses.all_match
    dvm.Vz.Addresses.after_comma dvm.Base.cut dvm.Vz.Addresses.parse_hex_byte
    dvm.Vz.Addresses.scan_hex dvm.Vz.Addresses.hex_value
found = refl

-- Two forwards, one of them udp, and two ports to probe, of which one answers
abbrev options : Options
options = record {
  name = codes "lab";
  memory_mb = pos 1024;
  cpus = pos 1;
  kernel_path = codes "/k";
  initrd_path = codes "/i";
  rootfs_raw_path = codes "/r";
  seed_path = [];
  kernel_cmdline = [];
  state_dir = codes "/s";
  persist = true;
  console = false;
  ports =
      record { proto = codes "tcp"; host_ip = []; host_port = pos 8080; guest_port = pos 80 }
      ∷ record { proto = codes "udp"; host_ip = []; host_port = pos 53; guest_port = pos 53 }
      ∷ [];
  readiness_guest_ports = pos 80 ∷ pos 22 ∷ [];
  services = codes "web: http://127.0.0.1:8080" ∷ [];
}

abbrev polls : List Poll
polls = record { arp = none; leases = some leases; over = false } ∷ []

abbrev rounds : List Round
rounds = refused ∷ connected ∷ refused ∷ over ∷ []

manage_network-network_of_example :
    manage_network mac options polls rounds
    ≡ network_of options (connections rounds) (wait_guest_ip mac polls)
manage_network-network_of_example = manage_network-network_of mac options polls rounds

clients :
    (proxy_port true (client true ∷ client false ∷ closed ∷ client true ∷ [])
      ≡ relayed_and_closed ∷ only_closed ∷ [])
    × (join_host_port (codes "::1") (codes "80") ≡ codes "[::1]:80")
unfolding proxy_port join_host_port dvm.Vz.Network.serve dvm.Vz.Network.pipe dvm.Base.contains
clients = (refl, refl)

abbrev disk : Disk
disk p = none

-- A machine whose disk is cloned, and that stops at the deadline after an interrupt
abbrev site : Site
site = record {
  logs_ok = true;
  clone_io = record { clone_ok = true; create_ok = true; copy_ok = true };
  base = some (codes "raw");
  succeeds = λ c. true;
  serial_ok = true;
  guest_writes = λ d. d;
  events = state_other ∷ interrupted ∷ deadline ∷ [];
  disk_removable = true;
}

ran : (run site options disk).0 ≡ ok tt
unfolding run dvm.Vz.Run.drop_disk dvm.Vz.Run.with_overlay dvm.Vz.Overlay.ensure_overlay
    dvm.Cache.Disk.mkdir_all ◌≟◌ dvm.Vz.Run.disk_image dvm.Base.FilePath.join_path dvm.Base.join
    split dvm.Base.has_prefix dvm.Vz.Overlay.clone dvm.Vz.Run.first_failure dvm.Vz.Run.calls_before
    dvm.Vz.Run.boot dvm.Vz.Run.open_serial dvm.Vz.Run.ended dvm.Vz.Supervise.wait_for_end
    dvm.Base.FilePath.clean dvm.Vz.Supervise.shutdown
ran = refl

run-IsRun_example :
    (leb_int options.memory_mb (pos 0) ≡ false)
    × (leb_int options.cpus (pos 0) ≡ false)
    × (site.logs_ok ≡ true)
    × ((cloned site options disk).0 ≡ ok tt)
    × IsRun site options
run-IsRun_example = run-IsRun site options disk ran
