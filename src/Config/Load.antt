-- ===== src/Config/Load.antt =====
-- internal/app/config.go: where the configuration comes from. `yaml.Unmarshal` is an argument: from
-- the file's bytes and the configuration so far it gives the new one, or fails.
use dvm.Base.{ℕ, Bytes, codes, is_empty, has_prefix, Bool, false, not, ◌||◌, ◌==◌, ◌^◌, take}
use dvm.Base.{List, [], ◌∷◌, Option, none, some, if◌then◌else◌, Result, ok, err, need}
use dvm.Base.{◌>>=◌}
use dvm.Base.FilePath.{join_path}
use dvm.Host.{Host}
use dvm.Config.Defs.{Config, default_config}

pub data LoadError : Type 0 where
  fetch_failed : LoadError
  bad_status : ℕ → LoadError
  read_failed : LoadError
  parse_failed : LoadError

abbrev pub Unmarshal : Type 0
Unmarshal = Bytes → Config → Option Config

-- `fi, err := os.Stat(p); err == nil && !fi.IsDir()`
abbrev pub is_file : Host → Bytes → Bool
is_file h p = elim (h.stat p) [ none ↦ false | some fi ↦ not fi.is_dir ]

abbrev pub file_names : List Bytes
file_names = codes "dvm.yaml" ∷ codes "myvm.yaml" ∷ []

abbrev pub placed : List Bytes → Bytes → Bytes
placed [] name = name
placed (d ∷ ds) name = join_path (d ∷ codes "diveinto-lab" ∷ name ∷ [])

-- The loop over names, each put below the directory, if one is given.
unfoldable pub first_file : Host → List Bytes → List Bytes → Option Bytes
first_file h at [] = none
first_file h at (name ∷ names) =
    let p = placed at name in
    let rest = first_file h at names in if is_file h p then some p else rest

unfoldable pub in_config_dir : Host → Option Bytes → Bytes
unfolding first_file
in_config_dir h none = []
in_config_dir h (some d) = elim (first_file h (d ∷ []) file_names) [ none ↦ [] | some p ↦ p ]

-- `resolveConfigPath`; the empty path stands for the built-in defaults.
unfoldable pub resolve_config_path : Host → Bytes → Bytes
resolve_config_path h explicit =
    if not (is_empty explicit)
    then explicit
    else elim (first_file h [] file_names) [ some p ↦ p | none ↦ in_config_dir h h.user_config_dir ]

-- io.LimitReader(resp.Body, 1<<20)
abbrev pub body_limit : ℕ
body_limit = 2 ^ 20

unfoldable pub fetch_config_url : Host → Bytes → Result LoadError Bytes
fetch_config_url h url = elim (h.http_get url) [
  | none ↦ err fetch_failed
  | some (status, body) ↦
      if status == 200 then ok (take body_limit body) else err (bad_status status)
]

unfoldable pub read_config_source : Host → Bytes → Result LoadError Bytes
unfolding fetch_config_url
read_config_source h path =
    if has_prefix path (codes "http://") || has_prefix path (codes "https://")
    then fetch_config_url h path
    else need read_failed (h.read_file path)

-- `LoadConfig`, without the path that it also returns for messages.
unfoldable pub load_config : Host → Unmarshal → Bytes → Result LoadError Config
load_config h unmarshal explicit =
    let path = resolve_config_path h explicit in
    if is_empty path
    then ok default_config
    else do text ← read_config_source h path; need parse_failed (unmarshal text default_config)
