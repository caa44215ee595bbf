-- ===== src/App/Launching.antt =====
-- What QEMU is given when a start succeeds.
use dvm.Base.{Bool}
use dvm.Base.{
  sym, ap, ◌∙◌, codes, itoa, join, map, is_empty, if◌then◌else◌, [], ◌∷◌, Bytes, Option, some, List,
  ◌++◌, append_assoc, Result, ok, err, ok-injective,
}
use dvm.Base.{◌≡◌, refl}
use mathlib.Core.Path.{ap₂}
use mathlib.Core.Option.{some-injective}
use dvm.Cache.Disk.{Disk}
use dvm.Component.{Component}
use dvm.Qemu.{
  Archive, Spec, Backend, PortForward, build_args, all_args, machine_args, seed_args, display_args,
  serial_args, qmp_args, user_nic_args, hostfwd, user_net, ControlAddr,
}
use dvm.Qemu.Options.{build_args_iff}
use dvm.Vm.{check_ports_free, run, running, Options, Site, Launch, launching}
use dvm.Vm.Booted.{IsStarted, wanted, run-IsStarted}
use dvm.App.Create.{App}
use dvm.App.Forwards.{port_forwards}
use dvm.App.Seeding.{build_seed}
use dvm.App.Flow.{FlowError, lift, wrapped, port_taken, no_seed, run_failed}
use dvm.App.Start.{
  World, state_dir, releasing, boot, boot_locked, start_qemu, spec_for, options_for,
}
use dvm.App.Booting.{follow-ok, start_qemu-Booting}

abbrev pub or_text : Bytes → Bytes → Bytes
or_text [] default = default
or_text (c ∷ s) default = c ∷ s

-- hostfwd=PROTO:ADDRESS:HOST-:GUEST, with tcp and the loopback address where none is given
abbrev pub forward_option : PortForward → Bytes
forward_option p =
    codes "hostfwd="
    ++ (or_text p.proto (codes "tcp")
        ++ (codes ":"
            ++ (or_text p.host_ip (codes "127.0.0.1")
                ++ (codes ":" ++ (itoa p.host_port ++ (codes "-:" ++ itoa p.guest_port))))))

-- QEMU's user network, a virtio card, and these forwards in their order
abbrev pub nic_option : List PortForward → List Bytes
nic_option ports =
    codes "-nic"
    ∷ join (codes "user" ∷ codes "model=virtio-net-pci" ∷ map forward_option ports) (codes ",")
    ∷ []

or_else_text-or_text : (s default : Bytes) → (if is_empty s then default else s) ≡ or_text s default
or_else_text-or_text [] default = refl
or_else_text-or_text (c ∷ s) default = refl

hostfwd-forward_option : (p : PortForward) → hostfwd p ≡ forward_option p
unfolding hostfwd
hostfwd-forward_option p =
    ap₂
      (λ proto ip.
        codes "hostfwd="
        ++ (proto
            ++ (b':' ∷ (ip ++ (b':' ∷ (itoa p.host_port ++ (codes "-:" ++ itoa p.guest_port)))))))
      (or_else_text-or_text p.proto (codes "tcp"))
      (or_else_text-or_text p.host_ip (codes "127.0.0.1"))

map-forward_option : (ports : List PortForward) → map hostfwd ports ≡ map forward_option ports
map-forward_option [] = refl
map-forward_option (p ∷ ports) =
    ap₂ (λ x l. x ∷ l) (hostfwd-forward_option p) (map-forward_option ports)

user_nic_args-nic_option : (ports : List PortForward) → user_nic_args ports ≡ nic_option ports
unfolding user_nic_args
user_nic_args-nic_option ports =
    ap (λ l. codes "-nic" ∷ join (codes "user" ∷ codes "model=virtio-net-pci" ∷ l) (codes ",") ∷ [])
      (map-forward_option ports)

-- QEMU runs with arguments that hold the option -nic with these forwards.
abbrev pub RunsWith : (List Bytes → Launch) → List PortForward → Type 0
RunsWith launch ports =
    (args : List Bytes) × (before : List Bytes) × (after : List Bytes) × (launch args ≡ running)
    × (args ≡ before ++ (nic_option ports ++ after))

nic_args-all_args :
    (s : Spec) (net : Backend)
    → all_args s net
      ≡ (machine_args s ++ seed_args s)
        ++ (net.nic_args s.ports
            ++ (display_args s ++ (serial_args s ++ (qmp_args s ++ s.extra_args))))
unfolding all_args
nic_args-all_args s net = sym (append_assoc (machine_args s) (seed_args s) _)

built-RunsWith :
    (launch : List Bytes → Launch) (s : Spec) (args : List Bytes)
    → s.net ≡ some user_net
    → build_args s ≡ ok args
    → launch args ≡ running
    → RunsWith launch s.ports
built-RunsWith launch s args n e l =
    let (net, complete, same) = (build_args_iff s args).0 e in
    (
      args,
      machine_args s ++ seed_args s,
      display_args s ++ (serial_args s ++ (qmp_args s ++ s.extra_args)),
      l,
      same
          ∙ ap (all_args s) (some-injective _ _ (sym complete.network ∙ n))
          ∙ nic_args-all_args s user_net
          ∙ ap
              (λ l.
                (machine_args s ++ seed_args s)
                ++ (l ++ (display_args s ++ (serial_args s ++ (qmp_args s ++ s.extra_args)))))
              (user_nic_args-nic_option s.ports),
    )

started-RunsWith :
    (s : Site) (o : Options) (seed : Bytes) (channels : ControlAddr × ControlAddr)
    → o.spec.net ≡ some user_net
    → IsStarted s o seed channels
    → RunsWith (launching s) o.spec.ports
started-RunsWith s o seed (qmp, serial) n (accel, (before, after, split, fails, (args, e, l))) =
    built-RunsWith (launching s) (record (wanted o seed (qmp, serial)) { accel = accel }) args n e l

wrapped_result :
    {E A : Type 0} (wrap : E → FlowError) (x : Result E A × Disk) {a : A}
    → (wrapped wrap x).0 ≡ ok a
    → x.0 ≡ ok a
wrapped_result wrap (ok b, d) e = ap ok (ok-injective e)
wrapped_result wrap (err x, d) e = absurd (cc e)

module _ (sha : Bytes → Bytes) (open_archive : Bytes → Option Archive)
    (encode : Bytes → List (Bytes × Bytes) → Bytes) (blank : Bytes)
    (qemu_img : Bytes → Bytes → Bytes → Bytes → Disk → Bool × Disk) where
  run-RunsWith :
      (s : Site) (o : Options) (d : Disk)
      → o.spec.net ≡ some user_net
      → (run sha encode blank qemu_img s o d).0 ≡ ok tt
      → RunsWith (launching s) o.spec.ports
  run-RunsWith s o d n e =
      let (prep, prepared, (seed, seeded, is_seed, (channels, given, started))) =
        run-IsStarted sha encode blank qemu_img s o d e in
      started-RunsWith s o seed channels n started

  booted-RunsWith :
      (w : World) (a : App) (bins : Bytes × Bytes) (dir : Bytes) (kernel initrd rootfs : Component)
      (d : Disk)
      → (boot_locked sha open_archive encode blank qemu_img w a bins dir
          (spec_for w a kernel initrd)
          rootfs
          d).0
        ≡ ok tt
      → RunsWith (launching w.site) (port_forwards a.cfg)
  unfolding boot_locked boot releasing options_for spec_for
  booted-RunsWith w a bins dir kernel initrd rootfs d e =
      let spec = spec_for w a kernel initrd in
      let (u, d1, h1, e1) =
        follow-ok (lift port_taken (check_ports_free w.can_listen spec.ports) d) _ e in
      let ((seed, image), d2, h2, e2) =
        follow-ok (lift no_seed (build_seed w.host a.cfg) d1) _ e1 in
      run-RunsWith w.site (options_for w a bins dir spec rootfs (seed, image)) d2 refl
        (wrapped_result run_failed _ e2)

  -- When a start with QEMU succeeds, QEMU was started with arguments that it survives with, and that
  -- hold the option -nic with a `hostfwd` for each port of the configuration and, if it is set, for
  -- SSH, in this order.
  pub start_qemu-RunsWith :
      (w : World) (a : App) (d : Disk)
      → (start_qemu sha open_archive encode blank qemu_img w a d).0 ≡ ok tt
      → RunsWith (launching w.site) (port_forwards a.cfg)
  start_qemu-RunsWith w a d e =
      let b = start_qemu-Booting sha open_archive encode blank qemu_img w a d e in
      booted-RunsWith w a b.bins (state_dir a) b.kernel b.initrd b.rootfs b.disk b.booted
