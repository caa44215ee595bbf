-- ===== src/Config/Tests.antt =====
-- Tests of internal/app/config.go, and its theorems at concrete inputs.
use dvm.Base.{codes, ◌≟◌, pos}
use dvm.Base.{[], ◌∷◌, ◌++◌, ok, err, ◌≡◌}
use dvm.Base.{refl, inr, arith, atoi, cut, last_index, trim_space, to_lower}
use dvm.Samples.{linux_host}
use dvm.Config.Defs.{Port, Config, default_config, mode_valid}
use dvm.Config.Load.{resolve_config_path, first_file}
use dvm.Config.Validate.{check_ports, validate}
use dvm.Config.PortSpec.{PortError, no_colon, bad_protocol, bad_guest, parse_port, parse_pair}
use dvm.Config.PortSpec.{parse_port_spec}
use dvm.Config.Valid.{HasPorts}
use dvm.Config.Lookup.{candidates, first_of_list, resolve_config_path-first}
use dvm.Config.Specs.{IsProtocol, write_pair, parse_port_spec-HasPorts, parse_port_spec-write}

abbrev web : Port
web = record { name = []; protocol = codes "tcp"; host = pos 8080; guest = pos 80; url = [] }

abbrev far : Port
far = record { name = codes "far"; protocol = []; host = pos 70000; guest = pos 80; url = [] }

-- The table of TestParsePortSpec.
spaced :
    parse_port_spec (codes "  2222 : 22 ")
    ≡ ok (record { name = []; protocol = codes "tcp"; host = pos 2222; guest = pos 22; url = [] })
unfolding parse_port_spec ◌≟◌ dvm.Config.PortSpec.split_protocol last_index parse_pair cut
    parse_port atoi trim_space
spaced = refl

bare : parse_port_spec (codes "80") ≡ err (no_colon (codes "80"))
unfolding parse_port_spec ◌≟◌ dvm.Config.PortSpec.split_protocol last_index parse_pair cut
bare = refl

sctp : parse_port_spec (codes "8080:80/sctp") ≡ err (bad_protocol (codes "sctp"))
unfolding parse_port_spec ◌≟◌ dvm.Config.PortSpec.split_protocol last_index to_lower
sctp = refl

too_large : parse_port_spec (codes "8080:70000") ≡ err (bad_guest (codes "70000"))
unfolding parse_port_spec ◌≟◌ dvm.Config.PortSpec.split_protocol last_index parse_pair cut
    parse_port atoi trim_space
too_large = refl

read_web : parse_port_spec (codes "8080:80/TCP") ≡ ok web
unfolding parse_port_spec ◌≟◌ dvm.Config.PortSpec.split_protocol last_index to_lower parse_pair cut
    parse_port atoi trim_space
read_web = refl

parse_port_spec-HasPorts_example :
    HasPorts web × IsProtocol web.protocol × (web.name ≡ []) × (web.url ≡ [])
parse_port_spec-HasPorts_example = parse_port_spec-HasPorts (codes "8080:80/TCP") read_web

parse_port_spec-write_example :
    parse_port_spec (write_pair 5353 53 ++ (b'/' ∷ codes "udp"))
    ≡ ok (record { name = []; protocol = codes "udp"; host = pos 5353; guest = pos 53; url = [] })
parse_port_spec-write_example =
    parse_port_spec-write (codes "udp") 5353 53 (inr refl) (omega arith) (omega arith)

default_is_valid : validate default_config ≡ ok tt
unfolding validate default_config mode_valid ◌≟◌ check_ports
default_is_valid = refl

abbrev two_ports : Config
unfolding default_config
two_ports = record default_config { ports = web ∷ far ∷ [] }

resolve_config_path-first_example :
    resolve_config_path linux_host [] ≡ first_of_list linux_host (candidates linux_host)
resolve_config_path-first_example = resolve_config_path-first linux_host []

found_here : resolve_config_path linux_host [] ≡ codes "dvm.yaml"
unfolding resolve_config_path first_file ◌≟◌
found_here = refl
