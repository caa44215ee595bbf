-- ===== src/Qemu/Control.antt =====
-- internal/qemu/control.go: how QEMU's monitor and serial line are reached.
use dvm.Base.{ℕ, suc, Bytes, codes, ◌≟◌, last_index, take, drop, Bool, false}
use dvm.Base.{◌||◌, ◌==◌, none, some, [], ◌∷◌, ◌++◌, if◌then◌else◌}

pub record ControlAddr : Type 0 where
  pub net : Bytes
  pub addr : Bytes

abbrev pub is_tcp : ControlAddr → Bool
is_tcp c = c.net ≟ codes "tcp"

abbrev mode_suffix : Bytes
mode_suffix = codes ",server=on,wait=off"

-- `QMPArg`
unfoldable pub qmp_arg : ControlAddr → Bytes
qmp_arg c =
    if is_tcp c
    then codes "tcp:" ++ (c.addr ++ mode_suffix)
    else codes "unix:" ++ (c.addr ++ mode_suffix)

has_byte : Bytes → ℕ → Bool
has_byte [] c = false
has_byte (x ∷ s) c = (x == c) || has_byte s c

-- net.SplitHostPort on an address without brackets, which all of these are: the program only
-- passes the addresses of loopback listeners. On an error both parts are empty.
unfoldable pub split_host_port : Bytes → Bytes × Bytes
unfolding has_byte
split_host_port s = elim (last_index s b':') [
  | none ↦ ([], [])
  | some i ↦
      if has_byte (take i s) b':' || has_byte s b'[' || has_byte s b']'
      then ([], [])
      else (take i s, drop (suc i) s)
]

-- `SerialChardevArg`
unfoldable pub serial_chardev_arg : ControlAddr → Bytes → Bytes
serial_chardev_arg c id =
    if is_tcp c
    then codes "socket,id="
      ++ (id
          ++ (codes ",host="
              ++ ((split_host_port c.addr).0
                  ++ (codes ",port=" ++ ((split_host_port c.addr).1 ++ mode_suffix)))))
    else codes "socket,id=" ++ (id ++ (codes ",path=" ++ (c.addr ++ mode_suffix)))
