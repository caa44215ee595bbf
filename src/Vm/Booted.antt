-- ===== src/Vm/Booted.antt =====
-- What stands behind a run that ends well: the disk, the seed, the channels and the arguments.
use dvm.Base.{Bool}
use dvm.Base.{
  Bytes, codes, is_empty, true, false, not, ◌||◌, Bool-cases, Option, none, some, List, [], ◌∷◌,
  Result, ok, err, ok-injective,
}
use dvm.Base.{◌≡◌, ◌≢◌, ◌⊎◌, inl, inr, refl, sym, subst, ◌∙◌}
use dvm.Base.FilePath.{join_path}
use mathlib.Core.Option.{some-injective}
use dvm.Qemu.{ControlAddr, Spec}
use dvm.Cache.Disk.{Disk}
use dvm.Vm.State.{overlay_path, seed_path, qmp_socket, serial_socket}
use dvm.Vm.Overlay.{DiskError, prepare_disk, is_there}
use dvm.Vm.Disks.{IsMade, IsCleared, prepare_disk_lem}
use dvm.Vm.Start.{StartError, start_with_fallback, candidates_or}
use dvm.Vm.Starting.{IsFirst, start_with_fallback_lem}
use dvm.Vm.Seed.{SeedParams, SeedError}
use dvm.Vm.Run.{
  Options, Site, RunOutcome, full_spec, launched, with_channels, with_seed, drop_overlay, with_disk,
  launching, seed_at, prepare_seed, unix_channels, windows_channels, control_channels, run,
}

-- The specification with this seed and these channels, QMP's and that of the serial port
abbrev pub wanted : Options → Bytes → ControlAddr × ControlAddr → Spec
wanted o seed channels = record (o.spec) {
  qemu_bin = o.qemu_bin;
  drive_path = join_path (o.dir ∷ codes "state.qcow2" ∷ []);
  seed_path = seed;
  serial_control = channels.1;
  qmp_control = channels.0;
}

-- The seed is the image that is given, or there is none, or it is the one in the state directory.
abbrev pub IsSeed : Options → Bytes → Type 0
IsSeed o seed =
    (is_empty o.seed_image ≡ false) × (seed ≡ o.seed_image)
    ⊎ (is_empty o.seed_image ≡ true) × (o.seed ≡ none) × (seed ≡ [])
    ⊎ (is_empty o.seed_image ≡ true)
      × (o.seed ≢ none)
      × (seed ≡ join_path (o.dir ∷ codes "seed.img" ∷ []))

-- The channels are sockets in the state directory, or on Windows the two listeners that could be had.
abbrev pub IsChannels : Site → Bytes → ControlAddr × ControlAddr → Type 0
IsChannels s dir (qmp, serial) =
    (s.windows ≡ false)
      × (qmp ≡ record { net = codes "unix"; addr = join_path (dir ∷ codes "qmp.sock" ∷ []) })
      × (serial ≡ record { net = codes "unix"; addr = join_path (dir ∷ codes "serial.sock" ∷ []) })
    ⊎ (s.windows ≡ true)
      × (s.listeners ≡ (some qmp.addr, some serial.addr))
      × (qmp.net ≡ codes "tcp")
      × (serial.net ≡ codes "tcp")

-- QEMU was started with the arguments for this seed and these channels, under the first candidate
-- that it survives with.
abbrev pub IsStarted : Site → Options → Bytes → ControlAddr × ControlAddr → Type 0
IsStarted s o seed channels =
    (accel : Bytes) × IsFirst (launching s) (wanted o seed channels)
      (candidates_or o.accel_candidates (wanted o seed channels)) accel

launched-ok :
    (s : Site) (o : Options) (r : Result StartError Bytes) (d : Disk)
    → (launched s o r d).0 ≡ ok tt
    → (accel : Bytes) × (r ≡ ok accel)
unfolding launched
launched-ok s o (err e) d h = absurd (cc h)
launched-ok s o (ok accel) d h = (accel, refl)

start-IsStarted :
    (s : Site) (o : Options) (seed : Bytes) (channels : ControlAddr × ControlAddr) (accel : Bytes)
    → start_with_fallback (launching s) (full_spec o seed channels) o.accel_candidates ≡ ok accel
    → IsStarted s o seed channels
unfolding full_spec overlay_path
start-IsStarted s o seed (qmp, serial) accel h =
    elim (start_with_fallback_lem (launching s) (full_spec o seed (qmp, serial))
      o.accel_candidates) [
        | inl (a, e, first) ↦ (a, first)
        | inr (x, e, fails) ↦ absurd (cc (h, e))
      ]

with_channels-ok :
    (s : Site) (o : Options) (seed : Bytes) (c : Option (ControlAddr × ControlAddr)) (d : Disk)
    → (with_channels s o seed c d).0 ≡ ok tt
    → (channels : ControlAddr × ControlAddr) × (c ≡ some channels) × IsStarted s o seed channels
unfolding with_channels
with_channels-ok s o seed none d h = absurd (cc h)
with_channels-ok s o seed (some (qmp, serial)) d h =
    let (accel, e) = launched-ok s o _ _ h in
    ((qmp, serial), refl, start-IsStarted s o seed (qmp, serial) accel e)

with_seed-ok :
    (s : Site) (o : Options) (x : Result SeedError Bytes × Disk)
    → (with_seed s o x).0 ≡ ok tt
    → (seed : Bytes) × (x.0 ≡ ok seed)
      × ((channels : ControlAddr × ControlAddr) × (control_channels s o.dir ≡ some channels)
          × IsStarted s o seed channels)
unfolding with_seed
with_seed-ok s o (err e, d) h = absurd (cc h)
with_seed-ok s o (ok seed, d) h = (seed, refl, with_channels-ok s o seed _ d h)

windows_channels-IsChannels :
    (s : Site) (dir : Bytes) (l : Option Bytes × Option Bytes) (c : ControlAddr × ControlAddr)
    → s.windows ≡ true
    → s.listeners ≡ l
    → windows_channels l ≡ some c
    → IsChannels s dir c
unfolding windows_channels
windows_channels-IsChannels s dir (some a, some b) c w e h =
    subst (IsChannels s dir) (some-injective _ _ h) (inr (w, e, refl, refl))
windows_channels-IsChannels s dir (some a, none) c w e h = absurd (cc h)
windows_channels-IsChannels s dir (none, some b) c w e h = absurd (cc h)
windows_channels-IsChannels s dir (none, none) c w e h = absurd (cc h)

control_channels-IsChannels :
    (s : Site) (dir : Bytes) (c : ControlAddr × ControlAddr)
    → control_channels s dir ≡ some c
    → IsChannels s dir c
unfolding control_channels unix_channels qmp_socket serial_socket
control_channels-IsChannels s dir c h = elim (Bool-cases s.windows) [
  | inl y ↦ windows_channels-IsChannels s dir s.listeners c y refl (rw y at h)
  | inr n ↦ subst (IsChannels s dir) (some-injective _ _ (rw n at h)) (inl (n, refl, refl))
]

seed_at-ok :
    (path : Bytes) (x : Result SeedError (Unit {0}) × Disk) {seed : Bytes}
    → (seed_at path x).0 ≡ ok seed
    → seed ≡ path
seed_at-ok path (ok u, d) h = sym (ok-injective h)
seed_at-ok path (err e, d) h = absurd (cc h)

dropped_result : (s : Site) (o : Options) (x : RunOutcome) → (drop_overlay s o x).0 ≡ x.0
unfolding drop_overlay
dropped_result s o (r, d) = refl

module _ (sha : Bytes → Bytes) (encode : Bytes → List (Bytes × Bytes) → Bytes) (blank : Bytes)
    (qemu_img : Bytes → Bytes → Bytes → Bytes → Disk → Bool × Disk) where
  abbrev pub prepared : Site → Options → Disk → Result DiskError (Unit {0}) × Disk
  prepared s o d =
      prepare_disk qemu_img o.reset o.persist s.overlay_removable o.qemu_img o.base_rootfs
        (overlay_path o.dir) d

  no_image-IsSeed :
      (s : Site) (o : Options) (p : Option SeedParams) (d : Disk) {seed : Bytes}
      → o.seed ≡ p
      → is_empty o.seed_image ≡ true
      → (prepare_seed sha encode blank s o d).0 ≡ ok seed
      → IsSeed o seed
  unfolding prepare_seed seed_path
  no_image-IsSeed s o none d e y h =
      inr (inl (y, e, sym (ok-injective (rw (prepare_seed, y, e) at h))))
  no_image-IsSeed s o (some p) d e y h =
      inr (inr (y, λ n. cc (e, n), seed_at-ok _ _ (rw (prepare_seed, y, e) at h)))

  prepare_seed-IsSeed :
      (s : Site) (o : Options) (d : Disk) {seed : Bytes}
      → (prepare_seed sha encode blank s o d).0 ≡ ok seed
      → IsSeed o seed
  unfolding prepare_seed
  prepare_seed-IsSeed s o d h = elim (Bool-cases (is_empty o.seed_image)) [
    | inl y ↦ no_image-IsSeed s o o.seed d refl y h
    | inr n ↦ inl (n, sym (ok-injective (rw (prepare_seed, n) at h)))
  ]

  with_disk-ok :
      (s : Site) (o : Options) (x : Result DiskError (Unit {0}) × Disk)
      → (with_disk sha encode blank qemu_img s o x).0 ≡ ok tt
      → (x.0 ≡ ok tt)
        × ((seed : Bytes) × ((prepare_seed sha encode blank s o x.1).0 ≡ ok seed)
            × ((channels : ControlAddr × ControlAddr) × (control_channels s o.dir ≡ some channels)
                × IsStarted s o seed channels))
  unfolding with_disk
  with_disk-ok s o (err e, d) h = absurd (cc h)
  with_disk-ok s o (ok u, d) h = (refl, with_seed-ok s o _ (sym (dropped_result s o _) ∙ h))

  -- How the disk stands when the seed is prepared: an overlay that is to persist was there, and nothing
  -- has changed, or the overlay was made from the base where none was any more.
  abbrev pub IsPrepared : Options → Disk → Disk → Type 0
  IsPrepared o d d' =
      ((o.reset || not o.persist) ≡ false) × (is_there (d (overlay_path o.dir)) ≡ true) × (d' ≡ d)
      ⊎ ((m : Disk) × IsCleared qemu_img (overlay_path o.dir) d m
          × IsMade qemu_img o.qemu_img o.base_rootfs (overlay_path o.dir) m d')

  pub run-IsStarted :
      (s : Site) (o : Options) (d : Disk)
      → (run sha encode blank qemu_img s o d).0 ≡ ok tt
      → ((prepared s o d).0 ≡ ok tt)
        × IsPrepared o d (prepared s o d).1
        × ((seed : Bytes) × ((prepare_seed sha encode blank s o (prepared s o d).1).0 ≡ ok seed)
            × IsSeed o seed
            × ((channels : ControlAddr × ControlAddr) × IsChannels s o.dir channels
                × IsStarted s o seed channels))
  unfolding run
  run-IsStarted s o d h =
      let (disk, (seed, seeded, (channels, given, started))) =
        with_disk-ok s o (prepared s o d) h in
      (
        disk,
        prepare_disk_lem qemu_img o.reset o.persist s.overlay_removable o.qemu_img o.base_rootfs
            (overlay_path o.dir) d disk,
        (
          seed,
          seeded,
          prepare_seed-IsSeed s o (prepared s o d).1 seeded,
          (channels, control_channels-IsChannels s o.dir channels given, started),
        ),
      )
