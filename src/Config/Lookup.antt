-- ===== src/Config/Lookup.antt =====
-- Which file is read, and what a loaded configuration is made of.
use dvm.Base.{Bytes, codes, is_empty, Option, none, some, List, [], ◌∷◌}
use dvm.Base.{if◌then◌else◌, ◌≡◌, refl, arith, Option-cases, inl, inr}
use dvm.Base.FilePath.{join_path}
use dvm.Host.{Host}
use dvm.Config.Load.{is_file, first_file, in_config_dir, resolve_config_path}

-- Every path that is looked at, in order.
abbrev pub candidates : Host → List Bytes
candidates h = codes "dvm.yaml" ∷ codes "myvm.yaml" ∷ user (h.user_config_dir)
  where
    user : Option Bytes → List Bytes
    user none = []
    user (some d) =
        join_path (d ∷ codes "diveinto-lab" ∷ codes "dvm.yaml" ∷ [])
        ∷ join_path (d ∷ codes "diveinto-lab" ∷ codes "myvm.yaml" ∷ [])
        ∷ []

-- The first path of a list that is a file, or the empty path.
abbrev pub first_of_list : Host → List Bytes → Bytes
first_of_list h [] = []
first_of_list h (p ∷ ps) = let rest = first_of_list h ps in if is_file h p then p else rest

-- An explicit path is taken as it is; without one it is the first file among `dvm.yaml` and
-- `myvm.yaml` in the working directory, then the same names in the directory
-- diveinto-lab of the user's configuration directory.
pub resolve_config_path-first :
    (h : Host) (explicit : Bytes)
    → resolve_config_path h explicit
      ≡ (if is_empty explicit then first_of_list h (candidates h) else explicit)
unfolding resolve_config_path in_config_dir first_file
resolve_config_path-first h (c ∷ s) = refl
resolve_config_path-first h [] = elim (Option-cases h.user_config_dir) [
  | inl e ↦ rw e (ground arith)
  | inr (d, e) ↦ rw e (ground arith)
]
