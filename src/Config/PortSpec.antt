-- ===== src/Config/PortSpec.antt =====
-- internal/app/config.go: `ParsePortSpec` reads HOST:GUEST or HOST:GUEST/proto.
use dvm.Base.{suc, Bytes, codes, ◌≟◌, to_lower, trim_space, last_index, cut, atoi, take, drop}
use dvm.Base.{Bool, ◌||◌, Option, none, some, [], ℤ, if◌then◌else◌}
use dvm.Base.{Result, ok, err, guard, need, ◌>>=◌, ◌>>◌}
use dvm.Config.Defs.{Port}
use dvm.Config.Validate.{out_of_range}

pub data PortError : Type 0 where
  bad_protocol : Bytes → PortError
  no_colon : Bytes → PortError
  bad_host : Bytes → PortError
  bad_guest : Bytes → PortError

-- The protocol behind the last slash and the text before it.
unfoldable pub split_protocol : Bytes → Bytes × Bytes
split_protocol s = elim (last_index s b'/') [
  | none ↦ (codes "tcp", s)
  | some i ↦ (to_lower (drop (suc i) s), take i s)
]

-- `strconv.Atoi(strings.TrimSpace(t))` with the test on the range; `none` is either refusal.
unfoldable pub parse_port : Bytes → Option ℤ
parse_port t = elim (atoi (trim_space t)) [
  | none ↦ none
  | some n ↦ if out_of_range n then none else some n
]

abbrev pub known_protocol : Bytes → Bool
known_protocol proto = proto ≟ codes "tcp" || proto ≟ codes "udp"

unfoldable pub parse_pair : Bytes → Bytes → Result PortError Port
parse_pair proto s = elim (cut s b':') [
  | none ↦ err (no_colon s)
  | some (host, guest) ↦ do
    h ← need (bad_host host) (parse_port host)
    g ← need (bad_guest guest) (parse_port guest)
    ok (record { name = []; protocol = proto; host = h; guest = g; url = [] })
]

unfoldable pub parse_parts : Bytes × Bytes → Result PortError Port
parse_parts (proto, pair) = do
  guard (known_protocol proto) (bad_protocol proto)
  parse_pair proto pair

unfoldable pub parse_port_spec : Bytes → Result PortError Port
unfolding parse_parts
parse_port_spec s = parse_parts (split_protocol s)
