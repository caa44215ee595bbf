-- ===== src/Qemu/Options.antt =====
-- What the command line says, read back from the argument list.
use dvm.Base.{Bytes, codes, ◌≟◌, ≟_iff, is_empty, Bool, true, false, not, ◌||◌, Option, none, some}
use dvm.Base.{List, [], ◌∷◌, ◌++◌, ok, guard-eq-ok, Bool-cases}
use dvm.Base.{if◌then◌else◌, ◌≡◌, ◌≢◌, ap, ◌⊎◌, ◌↔◌, inl, inr, refl, arith, sym, ◌∙◌, need, ◌>>=◌}
use mathlib.Core.Option.{some-injective}
use dvm.Qemu.Network.{Backend, user_net, user_nic_args}
use dvm.Qemu.Command.{arch_params, Spec}
use dvm.Qemu.Command.{machine_args, seed_args, display_args, serial_args}
use dvm.Qemu.Command.{qmp_args, all_args, build_args, no_network}

-- The values of an option in a list of options that take one value each.
abbrev pub option_values : Bytes → List Bytes → List Bytes
option_values flag [] = []
option_values flag (k ∷ []) = []
option_values flag (k ∷ v ∷ args) =
    let rest = option_values flag args in if k ≟ flag then v ∷ rest else rest

pub record IsComplete (s : Spec) (net : Backend) : Type 0 where
  pub qemu_bin : s.qemu_bin ≢ []
  pub kernel : s.kernel_path ≢ []
  pub initrd : s.initrd_path ≢ []
  pub drive : s.drive_path ≢ []
  pub network : s.net ≡ some net

is_empty-false : (s : Bytes) → is_empty s ≡ false → s ≢ []
is_empty-false [] h e = cc
is_empty-false (c ∷ s) h e = cc

is_empty_of_ne : (s : Bytes) → s ≢ [] → is_empty s ≡ false
is_empty_of_ne [] h = absurd (h refl)
is_empty_of_ne (c ∷ s) h = refl

net-eq-ok :
    (s : Spec) (o : Option Backend) {args : List Bytes}
    → (need no_network o >>= λ net. ok (all_args s net)) ≡ ok args
    → (net : Backend) × (o ≡ some net) × (args ≡ all_args s net)
net-eq-ok s none h = cc
net-eq-ok s (some net) h = (net, refl, cc)

paths-eq-true :
    (a b c : Bytes)
    → not (is_empty a || is_empty b || is_empty c) ≡ true
    → (a ≢ []) × (b ≢ []) × (c ≢ [])
paths-eq-true [] b c h = cc
paths-eq-true (x ∷ a) [] c h = cc
paths-eq-true (x ∷ a) (y ∷ b) [] h = cc
paths-eq-true (x ∷ a) (y ∷ b) (z ∷ c) h = (λ e. cc, λ e. cc, λ e. cc)

not-eq-true : (b : Bool) → not b ≡ true → b ≡ false
not-eq-true true h = cc
not-eq-true false h = refl

-- Arguments are built exactly from a specification that has the binary, the three paths and a
-- network backend, and they are all the options in their order.
pub build_args_iff :
    (s : Spec) (args : List Bytes)
    → (build_args s ≡ ok args) ↔ ((net : Backend) × IsComplete s net × (args ≡ all_args s net))
unfolding build_args
build_args_iff s args = (
  λ h.
      let (bin, h1) = guard-eq-ok _ _ _ h in
      let (paths, h2) = guard-eq-ok _ _ _ h1 in
      let (k, i, d) = paths-eq-true _ _ _ paths in
      let (net, n, e) = net-eq-ok s s.net h2 in
      (
        net,
        record {
          qemu_bin = is_empty-false _ (not-eq-true _ bin);
          kernel = k;
          initrd = i;
          drive = d;
          network = n;
        },
        e,
      ),
  λ (net, c, e). simp (
    is_empty_of_ne _ c.qemu_bin,
    is_empty_of_ne _ c.kernel,
    is_empty_of_ne _ c.initrd,
    is_empty_of_ne _ c.drive,
    c.network,
    e,
  ),
)

abbrev pub drive_value : Bytes → Bytes → Bytes
drive_value path format = codes "file=" ++ (path ++ (codes ",if=virtio,format=" ++ format))

abbrev drives : List Bytes → List Bytes
drives = option_values (codes "-drive")

drives-seed :
    (s : Spec) (rest : List Bytes)
    → drives (seed_args s ++ rest)
      ≡ (if is_empty s.seed_path then [] else drive_value s.seed_path (codes "raw") ∷ [])
        ++ drives rest
unfolding seed_args ◌≟◌
drives-seed s rest = elim (Bool-cases (is_empty s.seed_path)) [
  | inl e ↦ rw e refl
  | inr e ↦ rw e refl
]

drives-serial : (s : Spec) (rest : List Bytes) → drives (serial_args s ++ rest) ≡ drives rest
unfolding serial_args ◌≟◌
drives-serial s rest = elim (Bool-cases (is_empty s.serial_control.addr)) [
  | inl e ↦ rw e refl
  | inr e ↦ rw e refl
]

drives-qmp : (s : Spec) (rest : List Bytes) → drives (qmp_args s ++ rest) ≡ drives rest
unfolding qmp_args ◌≟◌
drives-qmp s rest = elim (Bool-cases (is_empty s.qmp_control.addr)) [
  | inl e ↦ rw e refl
  | inr e ↦ rw e refl
]

drives-display : (s : Spec) (rest : List Bytes) → drives (display_args s ++ rest) ≡ drives rest
unfolding display_args ◌≟◌
drives-display s rest = refl

drives-machine :
    (s : Spec) (rest : List Bytes)
    → drives (machine_args s ++ rest) ≡ drive_value s.drive_path (codes "qcow2") ∷ drives rest
unfolding machine_args ◌≟◌
drives-machine s rest = refl

drives-nic : (s : Spec) (rest : List Bytes) → drives (user_nic_args s.ports ++ rest) ≡ drives rest
unfolding user_nic_args ◌≟◌
drives-nic s rest = refl

drives-all :
    (s : Spec)
    → drives (all_args s user_net)
      ≡ drive_value s.drive_path (codes "qcow2")
        ∷ ((if is_empty s.seed_path then [] else drive_value s.seed_path (codes "raw") ∷ [])
            ++ drives s.extra_args)
unfolding all_args
drives-all s =
    drives-machine s _
    ∙ ap (λ l. drive_value s.drive_path (codes "qcow2") ∷ l)
        (drives-seed s _
          ∙ ap
              (λ l.
                (if is_empty s.seed_path then [] else drive_value s.seed_path (codes "raw") ∷ [])
                ++ l)
              (drives-nic s _
                ∙ (drives-display s _ ∙ (drives-serial s _ ∙ drives-qmp s s.extra_args))))

-- The first disk is the overlay in qcow2 format, which the guest sees as /dev/vda; a seed image, if
-- there is one, is the second, in raw format; further disks come from the extra arguments only.
pub build_args-drives :
    (s : Spec) (args : List Bytes)
    → s.net ≡ some user_net
    → build_args s ≡ ok args
    → option_values (codes "-drive") args
      ≡ drive_value s.drive_path (codes "qcow2")
        ∷ ((if is_empty s.seed_path then [] else drive_value s.seed_path (codes "raw") ∷ [])
            ++ option_values (codes "-drive") s.extra_args)
build_args-drives s args n h =
    let (net, c, e) = (build_args_iff s args).0 h in
    let same : net ≡ user_net = some-injective _ _ (sym c.network ∙ n) in
    rw (e, same) (drives-all s)

-- The guest gets the host's CPU model exactly under hardware virtualisation with hvf or kvm.
pub arch_params-cpu :
    (arch accel : Bytes)
    → ((arch_params arch accel).cpu ≡ codes "host")
      ↔ ((accel ≡ codes "hvf") ⊎ (accel ≡ codes "kvm"))
unfolding arch_params
arch_params-cpu arch accel = (
  λ h. ground (arith, ≟_iff accel (codes "hvf"), ≟_iff accel (codes "kvm")),
  λ h. ground (arith, ≟_iff accel (codes "hvf"), ≟_iff accel (codes "kvm")),
)
