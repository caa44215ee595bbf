-- ===== src/Qemu/Forwards.antt =====
-- The port forwards in the option -nic.
use dvm.Base.{split-join, ℕ, suc, Bytes, codes, split, itoa, ℤ, pos, negsuc}
use dvm.Base.{List, [], ◌∷◌, map, All, All-append, Lacks, IsDigit}
use dvm.Base.{◌≡◌, ◌≢◌, arith, digits-All}
use dvm.Qemu.Network.{PortForward, or_else_text, hostfwd, user_nic_args}

abbrev pub comma : ℕ
comma = b','

abbrev NoComma : ℕ → Type 0
NoComma c = c ≢ comma

digits-NoComma : (s : Bytes) → All IsDigit s → Lacks comma s
digits-NoComma [] h = tt
digits-NoComma (c ∷ s) (hc, hs) = (ground arith, digits-NoComma s hs)

itoa-NoComma : (n : ℤ) → Lacks comma (itoa n)
unfolding itoa
itoa-NoComma (pos n) = digits-NoComma _ (digits-All (suc n) n)
itoa-NoComma (negsuc n) = (omega arith, digits-NoComma _ (digits-All (suc (suc n)) (suc n)))

or_else-NoComma : (s d : Bytes) → Lacks comma s → Lacks comma d → Lacks comma (or_else_text s d)
or_else-NoComma [] d hs hd = hd
or_else-NoComma (c ∷ s) d hs hd = hs

-- The texts of a forward hold no comma.
abbrev pub IsPlain : PortForward → Type 0
IsPlain p = Lacks comma p.proto × Lacks comma p.host_ip

hostfwd-NoComma : (p : PortForward) → IsPlain p → Lacks comma (hostfwd p)
unfolding hostfwd
hostfwd-NoComma p (hp, hi) = All-append NoComma (codes "hostfwd=") _ (omega arith) (
    All-append NoComma (or_else_text p.proto (codes "tcp")) _
      (or_else-NoComma p.proto (codes "tcp") hp (omega arith))
      (
        omega arith,
        All-append NoComma (or_else_text p.host_ip (codes "127.0.0.1")) _
            (or_else-NoComma p.host_ip (codes "127.0.0.1") hi (omega arith))
            (
              omega arith,
              All-append NoComma (itoa p.host_port) _ (itoa-NoComma p.host_port) (
                  All-append NoComma (codes "-:") (itoa p.guest_port) (omega arith)
                    (itoa-NoComma p.guest_port)),
            ),
      ))

hostfwds-NoComma : (ps : List PortForward) → All IsPlain ps → All (Lacks comma) (map hostfwd ps)
hostfwds-NoComma [] h = tt
hostfwds-NoComma (p ∷ ps) (hp, hs) = (hostfwd-NoComma p hp, hostfwds-NoComma ps hs)

-- The value of -nic.
abbrev pub nic_value : List Bytes → Bytes
nic_value (flag ∷ v ∷ args) = v
nic_value _ = []

-- QEMU splits the value of -nic at its commas: it finds the model and exactly one `hostfwd` for each
-- forward, in order, if no protocol and no address holds a comma.
pub user_nic_args-split :
    (ports : List PortForward)
    → All IsPlain ports
    → split (nic_value (user_nic_args ports)) comma
      ≡ codes "user" ∷ codes "model=virtio-net-pci" ∷ map hostfwd ports
unfolding user_nic_args
user_nic_args-split ports h =
    split-join (codes "user") (codes "model=virtio-net-pci" ∷ map hostfwd ports) comma
      (omega arith, (omega arith, hostfwds-NoComma ports h))
