-- ===== src/Vm/Console.antt =====
-- internal/vm/console.go: the pump of the guest's serial line, and the interactive console.
use dvm.Base.{
  ℕ, ◌==◌, Bytes, Bool, true, false, Option, none, some, List, [], ◌∷◌, ◌++◌, if◌then◌else◌,
}

-- Ctrl-]
abbrev pub default_detach_key : ℕ
default_detach_key = 29

-- One read of the serial line: the bytes, whether they are mirrored, and whether the read failed.
pub record Chunk : Type 0 where
  pub bytes : Bytes
  pub mirrored : Bool
  pub failed : Bool

-- `run` of the pump: what it writes to the log and to the terminal, and whether it has closed.
unfoldable pub pump : List Chunk → Bytes × Bytes × Bool
pump [] = ([], [], false)
pump (c ∷ chunks) =
    let rest = pump chunks in
    let out : Bytes = if c.mirrored then c.bytes else [] in
    if c.failed then (c.bytes, out, true) else (c.bytes ++ rest.0, out ++ rest.1, rest.2)

-- One round of the console: whether the line has closed, the byte that is read, if there is one,
-- whether it can be passed on, and whether the read failed.
pub record Keystroke : Type 0 where
  pub closed : Bool
  pub byte : Option ℕ
  pub writable : Bool
  pub failed : Bool

pub data Left : Type 0 where
  detached : Left
  line_closed : Left
  write_error : Left
  read_error : Left
  typing : Left

unfoldable pub after_byte : Bool → Bytes × Left → Bytes × Left
after_byte failed (sent, l) = if failed then ([], read_error) else (sent, l)

unfoldable pub typed : ℕ → Keystroke → Option ℕ → Bytes × Left → Bytes × Left
typed key k none rest = after_byte k.failed rest
typed key k (some c) rest =
    if c == key
    then ([], detached)
    else if k.writable
    then (c ∷ (after_byte k.failed rest).0, (after_byte k.failed rest).1)
    else ([], write_error)

-- `interactive`: the bytes passed on to the guest, and how it ends
unfoldable pub interactive : ℕ → List Keystroke → Bytes × Left
interactive key [] = ([], typing)
interactive key (k ∷ ks) =
    let rest = interactive key ks in if k.closed then ([], line_closed) else typed key k k.byte rest
