-- ===== src/App/Mapping.antt =====
-- How readiness ports relate to the forwards.
use dvm.Base.{Bytes, codes, true, List, [], ◌∷◌, map, ℤ, pos, negsuc}
use dvm.Base.{
  Elem, Elem-append-left, Elem-append-right, Elem-append, Elem-map, map-Elem, ltb_int, none, some,
  Option-cases,
}
use dvm.Base.{Bool-cases, ◌≡◌, ◌⊎◌, ◌↔◌, inl, inr, refl, sym, ap, ◌∙◌, arith}
use mathlib.Core.Path.{ap₂}
use mathlib.Core.Option.{some-injective}
use dvm.Config.{Port, Config}
use dvm.Qemu.{PortForward}
use dvm.App.Flags.{pick}
use dvm.App.Forwards.{
  loopback, forward, ssh_forward, port_forwards, same_int, port_map, lookup_port,
}
use dvm.App.Forwards.{host_to_guest, guest_port_of}

same_int→≡ : (a b : ℤ) → same_int a b ≡ true → a ≡ b
same_int→≡ (pos a) (pos b) h = ground arith
same_int→≡ (pos a) (negsuc b) h = cc
same_int→≡ (negsuc a) (pos b) h = cc
same_int→≡ (negsuc a) (negsuc b) h = ground arith

same_int_refl : (a : ℤ) → same_int a a ≡ true
same_int_refl (pos a) = ground arith
same_int_refl (negsuc a) = ground arith

lookup-Elem : (hp : ℤ) (m : List (ℤ × ℤ)) {g : ℤ} → lookup_port hp m ≡ some g → Elem (hp, g) m
unfolding lookup_port
lookup-Elem hp [] h = cc
lookup-Elem hp ((k, v) ∷ m) {g} h = elim (Bool-cases (same_int hp k)) [
  | inl e ↦
      let found : some v ≡ some g = rw e at h in
      inl (ap₂ (λ a b. (a, b)) (same_int→≡ hp k e) (sym (some-injective v g found)))
  | inr e ↦ inr (lookup-Elem hp m (rw e at h))
]

lookup-none : (hp : ℤ) (m : List (ℤ × ℤ)) → lookup_port hp m ≡ none → (g : ℤ) → ¬ Elem (hp, g) m
unfolding lookup_port
lookup-none hp [] h g = λ m. m
lookup-none hp ((k, v) ∷ m) h g = elim (Bool-cases (same_int hp k)) [
  | inl e ↦ absurd (cc (rw e at h))
  | inr e ↦ λ m'. elim m' [
    | inl p ↦ cc (e, same_int_refl k, ap (λ t. t.0) p)
    | inr r ↦ lookup-none hp m (rw e at h) g r
  ]
]

-- A pair in the map comes from a forward of the configuration, and each of them is there.
port_map_iff :
    (ps : List Port) (m : List (ℤ × ℤ)) (a g : ℤ)
    → Elem (a, g) (port_map ps m)
      ↔ (Elem (a, g) m ⊎ ((p : Port) × Elem p ps × (p.host ≡ a) × (p.guest ≡ g)))
unfolding port_map
port_map_iff [] m a g = (λ h. inl h, λ h. elim h [ inl x ↦ x | inr (p, e, x, y) ↦ absurd e ])
port_map_iff (q ∷ ps) m a g = (
  λ h. elim ((port_map_iff ps ((q.host, q.guest) ∷ m) a g).0 h) [
    | inl (inl e) ↦ inr (q, inl refl, sym (ap (λ t. t.0) e), sym (ap (λ t. t.1) e))
    | inl (inr x) ↦ inl x
    | inr (p, x, y, z) ↦ inr (p, inr x, y, z)
  ],
  λ h. (port_map_iff ps ((q.host, q.guest) ∷ m) a g).1 (elim h [
    | inl x ↦ inl (inr x)
    | inr (p, inl e, y, z) ↦
        inl (inl (ap₂ (λ x y. (x, y)) (sym y ∙ ap (λ r. r.host) e) (sym z ∙ ap (λ r. r.guest) e)))
    | inr (p, inr x, y, z) ↦ inr (p, x, y, z)
  ]),
)

abbrev ssh_entry : Bytes → ℤ → PortForward
ssh_entry bind port = record {
  proto = codes "tcp";
  host_ip = bind;
  host_port = port;
  guest_port = pos 22;
}

-- The map and the list of forwards are told apart by the test on the SSH port.
module _ (c : Config) where
  abbrev pub bind : Bytes
  bind = pick c.network.bind_address loopback

  -- A forward from the host port to the guest port.
  abbrev pub Forwarded : ℤ → ℤ → Type 0
  Forwarded hp g =
      (f : PortForward) × Elem f (port_forwards c) × (f.host_port ≡ hp) × (f.guest_port ≡ g)

  Forwarded-port :
      (p : Port) (hp g : ℤ) → Elem p c.ports → p.host ≡ hp → p.guest ≡ g → Forwarded hp g
  unfolding port_forwards
  Forwarded-port p hp g m eh eg =
      (forward bind p, Elem-append-left _ _ _ (Elem-map (forward bind) p c.ports m), eh, eg)

  Forwarded-ssh : ltb_int (pos 0) c.network.ssh_port ≡ true → Forwarded c.network.ssh_port (pos 22)
  unfolding port_forwards
  Forwarded-ssh e = (
    ssh_entry bind c.network.ssh_port,
    Elem-append-right _ (map (forward bind) c.ports) _ (rw e (inl refl)),
    refl,
    refl,
  )

  host_to_guest-Forwarded : (hp g : ℤ) → Elem (hp, g) (host_to_guest c) → Forwarded hp g
  unfolding host_to_guest
  host_to_guest-Forwarded hp g = elim (Bool-cases (ltb_int (pos 0) c.network.ssh_port)) [
    | inl e ↦ rw e (λ m. elim m [
      | inl p ↦
          let (f, x, y, z) = Forwarded-ssh e in
          (f, x, y ∙ sym (ap (λ t. t.0) p), z ∙ sym (ap (λ t. t.1) p))
      | inr r ↦ from_map r
    ])
    | inr e ↦ rw e (λ m. from_map m)
  ]
    where
      from_map : Elem (hp, g) (port_map c.ports []) → Forwarded hp g
      from_map m = elim ((port_map_iff c.ports [] hp g).0 m) [
        | inl x ↦ absurd x
        | inr (p, x, y, z) ↦ Forwarded-port p hp g x y z
      ]

  Forwarded-host_to_guest : (hp g : ℤ) → Forwarded hp g → Elem (hp, g) (host_to_guest c)
  unfolding host_to_guest port_forwards
  Forwarded-host_to_guest hp g (f, m, eh, eg) =
      elim (Elem-append f (map (forward bind) c.ports) (ssh_forward bind c.network.ssh_port) m) [
        | inl l ↦
            let (p, x, y) = map-Elem (forward bind) f c.ports l in
            in_map (
              (port_map_iff c.ports [] hp g).1 (
                inr
                  (p, x, sym (ap (λ r. r.host_port) y) ∙ eh, sym (ap (λ r. r.guest_port) y) ∙ eg)))
        | inr r ↦ from_ssh r
      ]
    where
      in_map : Elem (hp, g) (port_map c.ports []) → Elem (hp, g) (host_to_guest c)
      in_map x = elim (Bool-cases (ltb_int (pos 0) c.network.ssh_port)) [
        | inl e ↦ rw e (inr x)
        | inr e ↦ rw e x
      ]

      from_ssh : Elem f (ssh_forward bind c.network.ssh_port) → Elem (hp, g) (host_to_guest c)
      from_ssh = elim (Bool-cases (ltb_int (pos 0) c.network.ssh_port)) [
        | inl e ↦ rw e (λ m. elim m [
          | inl q ↦ inl (
              ap₂ (λ x y. (x, y)) (sym eh ∙ ap (λ r. r.host_port) q)
                (sym eg ∙ ap (λ r. r.guest_port) q))
          | inr q ↦ absurd q
        ])
        | inr e ↦ rw e (λ m. absurd m)
      ]

-- A readiness port that is the host side of a forward is probed at the guest side of a forward from
-- it; any other port is probed as it is.
pub guest_port_of-Forwarded :
    (c : Config) (hp : ℤ)
    → Forwarded c hp (guest_port_of (host_to_guest c) hp)
      ⊎ ((g : ℤ) → ¬ Forwarded c hp g) × (guest_port_of (host_to_guest c) hp ≡ hp)
unfolding guest_port_of
guest_port_of-Forwarded c hp = elim (Option-cases (lookup_port hp (host_to_guest c))) [
  | inl e ↦ inr (
    λ g w. lookup-none hp (host_to_guest c) e g (Forwarded-host_to_guest c hp g w),
    rw (e, guest_port_of),
  )
  | inr (g, e) ↦
      inl (
        rw (e, guest_port_of) (host_to_guest-Forwarded c hp g (lookup-Elem hp (host_to_guest c) e)))
]
