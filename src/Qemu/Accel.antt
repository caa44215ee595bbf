-- ===== src/Qemu/Accel.antt =====
-- internal/qemu/accel.go and its three companions, one for each operating system.
use dvm.Base.{Bytes, codes, ◌≟◌, Bool, false, not, ◌&&◌, ◌||◌, List, [], ◌∷◌, ◌++◌}
use dvm.Base.{if◌then◌else◌}
use dvm.Host.{Host}

abbrev pub tcg : Bytes
tcg = codes "tcg"

-- `DefaultAccelPreference`
unfoldable pub default_accel_preference : Host → List Bytes
default_accel_preference h =
    if h.goos ≟ codes "windows"
    then codes "whpx" ∷ tcg ∷ []
    else if h.goos ≟ codes "linux"
    then codes "kvm" ∷ tcg ∷ []
    else if h.goos ≟ codes "darwin"
    then codes "hvf" ∷ tcg ∷ []
    else tcg ∷ []

-- accel_darwin.go
unfoldable pub available_darwin : Bytes → Bool
available_darwin name = name ≟ codes "hvf"

-- accel_linux.go
unfoldable pub available_linux : Host → Bytes → Bool
available_linux h name = if name ≟ codes "kvm" then h.open_rw (codes "/dev/kvm") else false

-- accel_windows.go
unfoldable pub available_windows : Bytes → Bool
available_windows name = name ≟ codes "whpx"

-- `accelAvailable` of the file that the build for this system holds.
unfoldable pub accel_available : Host → Bytes → Bool
unfolding available_darwin available_linux available_windows
accel_available h name =
    if h.goos ≟ codes "darwin"
    then available_darwin name
    else if h.goos ≟ codes "linux"
    then available_linux h name
    else if h.goos ≟ codes "windows"
    then available_windows name
    else false

-- `seen[a]`, the map as the list of its keys
unfoldable pub is_seen : Bytes → List Bytes → Bool
is_seen a [] = false
is_seen a (b ∷ bs) = (a ≟ b) || is_seen a bs

-- `continue` on a repeated name, or on one that is neither tcg nor available.
unfoldable pub is_skipped : Host → Bytes → List Bytes → Bool
is_skipped h a seen = is_seen a seen || (not (a ≟ tcg) && not (accel_available h a))

unfoldable pub collect_accels : Host → List Bytes → List Bytes → List Bytes → List Bytes
collect_accels h [] out seen = if is_seen tcg seen then out else out ++ (tcg ∷ [])
collect_accels h (a ∷ pref) out seen =
    let skip = is_skipped h a seen in
    collect_accels h pref (if skip then out else out ++ (a ∷ [])) (if skip then seen else a ∷ seen)

abbrev pub or_default : Host → List Bytes → List Bytes
or_default h [] = default_accel_preference h
or_default h (a ∷ pref) = a ∷ pref

-- `AccelCandidates`
unfoldable pub accel_candidates : Host → List Bytes → List Bytes
accel_candidates h pref = collect_accels h (or_default h pref) [] []
