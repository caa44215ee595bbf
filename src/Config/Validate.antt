-- ===== src/Config/Validate.antt =====
-- internal/app/config.go: `Validate`.
use dvm.Base.{ℕ, suc, Bytes, codes, ◌≟◌, Bool, not, ◌&&◌, ◌||◌, List, [], ◌∷◌, ℤ, pos}
use dvm.Base.{leb_int, ltb_int, if◌then◌else◌, Result, ok, err, guard, ◌>>◌}
use dvm.Config.Defs.{IpConfigMode, mode_valid, Port, Config}

pub data ConfigError : Type 0 where
  bad_ip_config : IpConfigMode → ConfigError
  bad_memory : ℤ → ConfigError
  bad_cpus : ℤ → ConfigError
  bad_bind_address : Bytes → ConfigError
  public_bind : ConfigError
  bad_port : ℕ → Bytes → ConfigError

-- `n <= 0 || n > 65535`
abbrev pub out_of_range : ℤ → Bool
out_of_range n = leb_int n (pos 0) || ltb_int (pos 65535) n

-- The loop over the ports from index `i` on.
unfoldable pub check_ports : ℕ → List Port → Result ConfigError (Unit {0})
check_ports i [] = ok tt
check_ports i (p ∷ ps) =
    let rest = check_ports (suc i) ps in
    if out_of_range p.host || out_of_range p.guest then err (bad_port i p.name) else rest

abbrev pub known_bind : Bytes → Bool
known_bind a = a ≟ codes "127.0.0.1" || a ≟ codes "localhost" || a ≟ codes "0.0.0.0"

unfoldable pub validate : Config → Result ConfigError (Unit {0})
validate c = do
  guard (mode_valid c.network.ip_config) (bad_ip_config c.network.ip_config)
  guard (not (leb_int c.guest.memory_mb (pos 0))) (bad_memory c.guest.memory_mb)
  guard (not (leb_int c.guest.cpus (pos 0))) (bad_cpus c.guest.cpus)
  guard (known_bind c.network.bind_address) (bad_bind_address c.network.bind_address)
  guard (not (c.network.bind_address ≟ codes "0.0.0.0" && not c.network.allow_public_bind))
      public_bind
  check_ports 0 c.ports
