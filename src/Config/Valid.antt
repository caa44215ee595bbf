-- ===== src/Config/Valid.antt =====
-- What Validate accepts, stated without its tests, and which port it reports.
use dvm.Base.{ℕ, suc, ◌+◌, ◌≤◌, Bytes, codes, ◌≟◌, ≟_iff, Bool, true, false, List, [], ◌∷◌}
use dvm.Base.{ℤ, pos, negsuc, IsPort, All, length, ok, err, ◌≡◌}
use dvm.Base.{
  ◌⊎◌, inl, inr, ◌↔◌, refl, ap, arith, Bool-cases, not, ◌&&◌, ◌||◌, leb_int, ◌++◌, guard-eq-ok,
}
use dvm.Config.Defs.{IpConfigMode, ip_cloud_init, ip_kernel_dhcp, ip_kernel_static, ip_none}
use dvm.Config.Defs.{mode_valid, Port, Config}
use dvm.Config.Validate.{bad_port, out_of_range, check_ports, known_bind, validate}

abbrev pub IsPositive : ℤ → Type 0
IsPositive (pos n) = 1 ≤ n
IsPositive (negsuc n) = ⊥

abbrev pub IsMode : IpConfigMode → Type 0
IsMode m = (m ≡ ip_cloud_init) ⊎ (m ≡ ip_kernel_dhcp) ⊎ (m ≡ ip_kernel_static) ⊎ (m ≡ ip_none)

abbrev pub HasPorts : Port → Type 0
HasPorts p = IsPort p.host × IsPort p.guest

pub record IsValid (c : Config) : Type 0 where
  pub mode : IsMode c.network.ip_config
  pub memory : IsPositive c.guest.memory_mb
  pub cpus : IsPositive c.guest.cpus
  pub bind :
      (c.network.bind_address ≡ codes "127.0.0.1")
      ⊎ (c.network.bind_address ≡ codes "localhost")
      ⊎ (c.network.bind_address ≡ codes "0.0.0.0") × (c.network.allow_public_bind ≡ true)
  pub ports : All HasPorts c.ports

pub out_of_range-false : (n : ℤ) → out_of_range n ≡ false → IsPort n
out_of_range-false (pos n) h = ground arith
out_of_range-false (negsuc n) h = cc

pub out_of_range-IsPort : (n : ℤ) → IsPort n → out_of_range n ≡ false
out_of_range-IsPort (pos n) h = ground arith
out_of_range-IsPort (negsuc n) h = elim h [ ]

check_ports_sound : (i : ℕ) (ps : List Port) → check_ports i ps ≡ ok tt → All HasPorts ps
unfolding check_ports
check_ports_sound i [] h = tt
check_ports_sound i (p ∷ ps) h = elim (Bool-cases (out_of_range p.host || out_of_range p.guest)) [
  | inl bad ↦ absurd (cc (rw bad at h))
  | inr good ↦ (
    (out_of_range-false p.host (ground arith), out_of_range-false p.guest (ground arith)),
    check_ports_sound (suc i) ps (rw good at h),
  )
]

check_ports_complete : (i : ℕ) (ps : List Port) → All HasPorts ps → check_ports i ps ≡ ok tt
unfolding check_ports
check_ports_complete i [] h = refl
check_ports_complete i (p ∷ ps) h =
    rw (out_of_range-IsPort p.host h.0.0, out_of_range-IsPort p.guest h.0.1)
      (check_ports_complete (suc i) ps h.1)

mode_valid_iff : (m : IpConfigMode) → (mode_valid m ≡ true) ↔ IsMode m
unfolding mode_valid
mode_valid_iff m = (
  λ h. ground (
    arith,
    ≟_iff m ip_cloud_init,
    ≟_iff m ip_kernel_dhcp,
    ≟_iff m ip_kernel_static,
    ≟_iff m ip_none,
  ),
  λ h. ground (
    arith,
    ≟_iff m ip_cloud_init,
    ≟_iff m ip_kernel_dhcp,
    ≟_iff m ip_kernel_static,
    ≟_iff m ip_none,
  ),
)

leb_zero_iff : (n : ℤ) → (not (leb_int n (pos 0)) ≡ true) ↔ IsPositive n
leb_zero_iff (pos n) = (λ h. ground arith, λ h. ground arith)
leb_zero_iff (negsuc n) = (λ h. cc, λ h. absurd h)

abbrev IsBind : Bytes → Bool → Type 0
IsBind a public =
    (a ≡ codes "127.0.0.1") ⊎ (a ≡ codes "localhost") ⊎ (a ≡ codes "0.0.0.0") × (public ≡ true)

known_bind_sound :
    (a : Bytes) (public : Bool)
    → known_bind a ≡ true
    → not (a ≟ codes "0.0.0.0" && not public) ≡ true
    → IsBind a public
known_bind_sound a public h k =
    ground
      (arith, ≟_iff a (codes "127.0.0.1"), ≟_iff a (codes "localhost"), ≟_iff a (codes "0.0.0.0"))

known_bind_complete :
    (a : Bytes) (public : Bool)
    → IsBind a public
    → (known_bind a ≡ true) × (not (a ≟ codes "0.0.0.0" && not public) ≡ true)
unfolding ◌≟◌
known_bind_complete a public (inl e) = rw e (refl, refl)
known_bind_complete a public (inr (inl e)) = rw e (refl, refl)
known_bind_complete a public (inr (inr (e, p))) = rw (e, p) (refl, refl)

-- `Validate` accepts a configuration exactly if it is valid.
pub validate-IsValid : (c : Config) → (validate c ≡ ok tt) ↔ IsValid c
unfolding validate
validate-IsValid c = (
  λ h.
      let (m, h1) = guard-eq-ok _ _ _ h in
      let (mem, h2) = guard-eq-ok _ _ _ h1 in
      let (cpu, h3) = guard-eq-ok _ _ _ h2 in
      let (known, h4) = guard-eq-ok _ _ _ h3 in
      let (open_ok, h5) = guard-eq-ok _ _ _ h4 in
      record {
        mode = (mode_valid_iff _).0 m;
        memory = (leb_zero_iff _).0 mem;
        cpus = (leb_zero_iff _).0 cpu;
        bind = known_bind_sound _ _ known open_ok;
        ports = check_ports_sound 0 c.ports h5;
      },
  λ v.
      let (known, open_ok) = known_bind_complete _ _ v.bind in
      rw
        (
          (mode_valid_iff _).1 v.mode,
          (leb_zero_iff _).1 v.memory,
          (leb_zero_iff _).1 v.cpus,
          known,
          open_ok,
        )
        (check_ports_complete 0 c.ports v.ports),
)

not-HasPorts : (p : Port) → (out_of_range p.host || out_of_range p.guest) ≡ true → ¬ HasPorts p
not-HasPorts p bad (h, g) = cc (bad, out_of_range-IsPort p.host h, out_of_range-IsPort p.guest g)

-- `p` is the first port out of range, and its index is `k` if the list begins at index `i`.
abbrev pub FirstBad : ℕ → List Port → ℕ → Bytes → Type 0
FirstBad i ps k name =
    (before : List Port) × (p : Port) × (after : List Port) × (ps ≡ before ++ (p ∷ after))
    × (i + length before ≡ k)
    × All HasPorts before
    × (¬ HasPorts p)
    × (p.name ≡ name)

check_ports-FirstBad :
    (i : ℕ) (ps : List Port) (k : ℕ) (name : Bytes)
    → check_ports i ps ≡ err (bad_port k name)
    → FirstBad i ps k name
unfolding check_ports
check_ports-FirstBad i [] k name h = cc
check_ports-FirstBad i (p ∷ ps) k name h =
    elim (Bool-cases (out_of_range p.host || out_of_range p.guest)) [
      | inl bad ↦
          let e : err (bad_port i p.name) ≡ err (bad_port k name) = rw bad at h in
          ([], p, ps, refl, ground arith, tt, not-HasPorts p bad, ground arith)
      | inr good ↦
          let (before, q, after, split_at, len, fine, bad, named) =
            check_ports-FirstBad (suc i) ps k name (rw good at h) in
          (
            p ∷ before,
            q,
            after,
            ap (λ l. p ∷ l) split_at,
            omega (arith, len),
            (
              (out_of_range-false p.host (ground arith), out_of_range-false p.guest (ground arith)),
              fine,
            ),
            bad,
            named,
          )
    ]

-- The error names the first port out of range, by its index and name.
pub validate-bad_port :
    (c : Config) (k : ℕ) (name : Bytes)
    → validate c ≡ err (bad_port k name)
    → FirstBad 0 c.ports k name
unfolding validate
validate-bad_port c k name h = check_ports-FirstBad 0 c.ports k name (ground arith)
