-- ===== src/Base/FilePath.antt =====
-- The package path/filepath on a host whose separator is '/'.
use mathlib.Core.Path.{◌≡◌, refl}
use mathlib.Core.Bool.{Bool, true, false, ◌||◌}
use mathlib.Core.List.{List, [], ◌∷◌, foldl, reverse}
use dvm.Base.Cond.{◌==◌, if◌then◌else◌}
use Prim.Native.Nat.{suc}
use mathlib.Core.Option.{none, some}
use dvm.Base.Lists.{take}
use dvm.Base.Strings.{Bytes, codes, ◌≟◌, is_empty, last_index, split, join}

abbrev pub dot : Bytes
dot = codes "."

abbrev pub dot_dot : Bytes
dot_dot = codes ".."

abbrev pub is_abs : Bytes → Bool
is_abs [] = false
is_abs (c ∷ s) = c == b'/'

-- `..` after the parts read so far, the last of them first.
unfoldable pub pop : Bool → List Bytes → List Bytes
pop rooted [] = if rooted then [] else dot_dot ∷ []
pop rooted (q ∷ stack) = if q ≟ dot_dot then dot_dot ∷ q ∷ stack else stack

unfoldable pub push : Bool → List Bytes → Bytes → List Bytes
unfolding pop
push rooted stack p =
    if is_empty p || (p ≟ dot) then stack else if p ≟ dot_dot then pop rooted stack else p ∷ stack

-- The parts of a path without empty ones and dots, the last first.
unfoldable pub parts : Bytes → List Bytes
unfolding push
parts s = foldl (push (is_abs s)) [] (split s b'/')

-- The path with these parts.
abbrev pub render : Bool → List Bytes → Bytes
render true stack = b'/' ∷ join (reverse stack) (codes "/")
render false [] = dot
render false (p ∷ stack) = join (reverse (p ∷ stack)) (codes "/")

-- filepath.Clean
unfoldable pub clean : Bytes → Bytes
unfolding parts
clean s = render (is_abs s) (parts s)

-- filepath.Join
unfoldable pub join_path : List Bytes → Bytes
unfolding clean
join_path [] = []
join_path ([] ∷ elems) = join_path elems
join_path ((c ∷ s) ∷ elems) = clean (join ((c ∷ s) ∷ elems) (codes "/"))

-- filepath.Dir: what stands before the last slash, cleaned
unfoldable pub dir_path : Bytes → Bytes
unfolding clean
dir_path s = elim (last_index s b'/') [ none ↦ clean [] | some i ↦ clean (take (suc i) s) ]

clean_test :
    (clean (codes "a//b/./../c") ≡ codes "a/c")
    × (clean (codes "/../x") ≡ codes "/x")
    × (clean [] ≡ dot)
    × (clean (codes "../../y/..") ≡ codes "../..")
unfolding clean ◌≟◌ split join
clean_test = (refl, refl, refl, refl)

join_path_test : join_path ([] ∷ codes "/var" ∷ [] ∷ codes "x" ∷ []) ≡ codes "/var/x"
unfolding join_path ◌≟◌ split join
join_path_test = refl

dir_path_test :
    (dir_path (codes "/a/b") ≡ codes "/a")
    × (dir_path (codes "x") ≡ dot)
    × (dir_path (codes "/x") ≡ codes "/")
unfolding dir_path ◌≟◌ split join last_index
dir_path_test = (refl, refl, refl)
