-- ===== src/Qemu/Network.antt =====
-- internal/qemu/network.go: user-mode networking and its addresses.
use dvm.Base.{Bytes, codes, ◌≟◌, is_empty, join, itoa, ℤ, List, [], ◌∷◌, ◌++◌, map, if◌then◌else◌}

abbrev pub slirp_guest_ip : Bytes
slirp_guest_ip = codes "10.0.2.15"

abbrev pub slirp_gateway : Bytes
slirp_gateway = codes "10.0.2.2"

abbrev pub slirp_dns : Bytes
slirp_dns = codes "10.0.2.3"

abbrev pub slirp_netmask : Bytes
slirp_netmask = codes "255.255.255.0"

pub record PortForward : Type 0 where
  pub proto : Bytes
  pub host_ip : Bytes
  pub host_port : ℤ
  pub guest_port : ℤ

-- The interface `Backend`.
pub record Backend : Type 0 where
  pub nic_args : List PortForward → List Bytes
  pub kernel_ip_param : Bytes → Bytes → Bytes

abbrev pub or_else_text : Bytes → Bytes → Bytes
or_else_text s default = if is_empty s then default else s

-- "hostfwd=%s:%s:%d-:%d"
unfoldable pub hostfwd : PortForward → Bytes
hostfwd p =
    codes "hostfwd="
    ++ (or_else_text p.proto (codes "tcp")
        ++ (b':'
            ∷ (or_else_text p.host_ip (codes "127.0.0.1")
                ++ (b':' ∷ (itoa p.host_port ++ (codes "-:" ++ itoa p.guest_port))))))

-- `UserNet.NicArgs`; the loop appends one part for each forward.
unfoldable pub user_nic_args : List PortForward → List Bytes
user_nic_args ports =
    codes "-nic"
    ∷ join (codes "user" ∷ codes "model=virtio-net-pci" ∷ map hostfwd ports) (codes ",")
    ∷ []

-- `UserNet.KernelIPParam`: "ip=%s::%s:%s::%s:off:%s"
unfoldable pub user_kernel_ip_param : Bytes → Bytes → Bytes
user_kernel_ip_param mode iface =
    if mode ≟ codes "kernel-dhcp"
    then codes "ip=dhcp"
    else if mode ≟ codes "kernel-static"
    then codes "ip="
      ++ (slirp_guest_ip
          ++ (codes "::"
              ++ (slirp_gateway
                  ++ (b':'
                      ∷ (slirp_netmask
                          ++ (codes "::"
                              ++ (or_else_text iface (codes "eth0")
                                  ++ (codes ":off:" ++ slirp_dns))))))))
    else []

abbrev pub user_net : Backend
user_net = record { nic_args = user_nic_args; kernel_ip_param = user_kernel_ip_param }
