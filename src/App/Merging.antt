-- ===== src/App/Merging.antt =====
-- What `New` builds from the flags and the configuration file.
use dvm.Base.{Bytes, codes, ≟_iff, Bool, true, List, [], ◌∷◌, ◌++◌}
use dvm.Base.{Result, ok, err, >>=-eq-ok, guard-eq-ok}
use dvm.Base.{◌≡◌, ◌⊎◌, refl, ap, subst, ok-injective, arith}
use dvm.Host.{Host}
use dvm.Config.{
  Config, Unmarshal, LoadError, load_config, ConfigError, validate, Port, parse_port_spec,
}
use dvm.Config.Valid.{IsValid, validate-IsValid}
use dvm.App.Flags.{Flags, pick, append_parsed, merge_flags}
use dvm.App.Create.{App, known_engine, resolve_dirs, lift_load, lift_valid, new_app}

-- The forwards that can be read.
abbrev pub parsed : List Bytes → List Port
parsed [] = []
parsed (spec ∷ specs) = append_parsed [] (parse_port_spec spec) ++ parsed specs

lift_load-ok : {A : Type 0} (r : Result LoadError A) {a : A} → lift_load r ≡ ok a → r ≡ ok a
lift_load-ok (ok b) h = ground arith
lift_load-ok (err e) h = cc

lift_valid-ok : {A : Type 0} (r : Result ConfigError A) {a : A} → lift_valid r ≡ ok a → r ≡ ok a
lift_valid-ok (ok b) h = ground arith
lift_valid-ok (err e) h = cc

abbrev pub IsEngine : Bytes → Type 0
IsEngine e = (e ≡ codes "auto") ⊎ (e ≡ codes "qemu") ⊎ (e ≡ codes "vz")

known_engine-IsEngine : (e : Bytes) → known_engine e ≡ true → IsEngine e
known_engine-IsEngine e h =
    ground (arith, ≟_iff e (codes "auto"), ≟_iff e (codes "qemu"), ≟_iff e (codes "vz"))

-- The application has a valid configuration, which is the loaded one under the flags, and one of
-- the three engines.
pub new_app-IsValid :
    (h : Host) (unmarshal : Unmarshal) (f : Flags) {a : App}
    → new_app h unmarshal f ≡ ok a
    → IsValid a.cfg
      × IsEngine a.engine
      × ((file : Config) × (load_config h unmarshal f.config_path ≡ ok file)
          × (a.cfg ≡ merge_flags file f))
unfolding new_app
new_app-IsValid h unmarshal f {a} e =
    let (file, loaded, e1) = >>=-eq-ok (lift_load (load_config h unmarshal f.config_path)) _ e in
    let (u, valid, e2) = >>=-eq-ok (lift_valid (validate (merge_flags file f))) _ e1 in
    let (known, e3) = guard-eq-ok (known_engine (pick f.engine (codes "auto"))) _ _ e2 in
    subst
      (λ x.
        IsValid x.cfg
        × IsEngine x.engine
        × ((file : Config) × (load_config h unmarshal f.config_path ≡ ok file)
            × (x.cfg ≡ merge_flags file f)))
      (ok-injective e3)
      (
        (validate-IsValid (merge_flags file f)).0 (lift_valid-ok _ valid),
        known_engine-IsEngine _ known,
        (file, lift_load-ok _ loaded, refl),
      )

-- The flags --qemu-arg and --headless have no effect: the same application is built whatever they
-- are set to.
pub new_app-qemu_args :
    (h : Host) (unmarshal : Unmarshal) (f : Flags) (args : List Bytes) (headless : Bool)
    → new_app h unmarshal (record f { qemu_args = args; headless = headless })
      ≡ new_app h unmarshal f
unfolding new_app merge_flags resolve_dirs
new_app-qemu_args h unmarshal f args headless = refl

-- Whatever `accel_fallback` says in the configuration file, the application has the value of the
-- flags.
pub new_app-accel_fallback :
    (h : Host) (unmarshal : Unmarshal) (f : Flags) {a : App}
    → new_app h unmarshal f ≡ ok a
    → a.cfg.qemu.accel_fallback ≡ f.accel_fallback
unfolding merge_flags
new_app-accel_fallback h unmarshal f {a} e =
    let (valid, engine, (file, loaded, same)) = new_app-IsValid h unmarshal f e in
    ap (λ c. c.qemu.accel_fallback) same
