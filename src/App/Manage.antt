-- ===== src/App/Manage.antt =====
-- internal/app/app.go: `Status` and `Clean`.
use dvm.Base.{
  ℤ, pos, ltb_int, Bytes, codes, itoa, Bool, true, false, not, List, [], ◌∷◌, ◌++◌, map,
  if◌then◌else◌,
}
use dvm.Base.{ok}
use dvm.Cache.Disk.{Disk, remove_all}
use dvm.Vm.{read_pid, pid_path}
use dvm.App.Create.{App}
use dvm.App.Forwards.{service_lines}
use dvm.App.Flow.{Flow, ◌>>=◌}
use dvm.App.Start.{oci_root, state_dir, new_state, lock_content}

-- The lines for a process id
unfoldable pub running_line : ℤ → Bytes
running_line pid =
    if ltb_int (pos 0) pid
    then codes "dvm is running (pid " ++ (itoa pid ++ codes ")")
    else codes "dvm is not running."

unfoldable pub port_lines : List Bytes → List Bytes
port_lines [] = []
port_lines (l ∷ ls) = codes "Ports:" ∷ map (λ x. codes "  " ++ x) (l ∷ ls)

unfoldable pub status_lines : App → Bytes → Disk → List Bytes
status_lines a dir d =
    running_line (read_pid (lock_content (d (pid_path dir))))
    ∷ (codes "State: " ++ dir)
    ∷ port_lines (service_lines a.cfg)

-- `Status`: what it prints
unfoldable pub app_status : Bool → App → Flow (List Bytes)
app_status can a = do dir ← new_state can (state_dir a); λ d. (ok (status_lines a dir d), d)

-- Whether the cache and the state can be removed; a removal that fails is taken to change nothing.
unfoldable pub app_clean : Bool × Bool → Bool → App → Disk → Bool × Disk
app_clean (cache_ok, state_ok) with_state a d =
    let cleaned = remove_all (oci_root a) d in
    if not cache_ok
    then (false, d)
    else if not with_state
    then (true, cleaned)
    else if state_ok
    then (true, remove_all (state_dir a) cleaned)
    else (false, cleaned)
