-- ===== src/App/Flow.antt =====
-- The state of a start: a chain of calls that can fail, on the disk of the cache and of the state
-- directory. What else is read of the host is the record `Host`.
use dvm.Base.{Bytes, Option, none, some, Bool, true, false, Result, ok, err}
use dvm.Cache.Disk.{Entry, file, Disk, write_file, remove}
use dvm.Cache.{CacheError}
use dvm.Component.{ResolveError}
use dvm.Oci.{PullError}
use dvm.Qemu.{PortForward, DownloadError}
use dvm.Vm.{LockError, RunError, SeedError}
use dvm.Vz.Run.{VzError}
use dvm.App.Seeding.{SeedingError}

pub data FlowError : Type 0 where
  missing_references : FlowError
  no_qemu_dir : FlowError
  no_qemu : DownloadError → FlowError
  binary_not_found : Bytes → FlowError
  no_cache : CacheError → FlowError
  unresolved : ResolveError PullError → FlowError
  no_state : FlowError
  locked : LockError → FlowError
  port_taken : PortForward → FlowError
  no_seed : SeedingError → FlowError
  run_failed : RunError → FlowError
  vz_unsupported : FlowError
  seed_failed : SeedError → FlowError
  vz_failed : VzError → FlowError

-- The disk afterwards is there in either case.
abbrev pub Flow : Type 0 → Type 0
Flow A = Disk → Result FlowError A × Disk

abbrev pub follow :
    {A B : Type 0} → Result FlowError A × Disk → (A → Flow B) → Result FlowError B × Disk
follow (ok a, d) f = f a d
follow (err e, d) f = (err e, d)

infixl 5 ◌>>=◌ ◌>>◌
abbrev pub ◌>>=◌ : {A B : Type 0} → Flow A → (A → Flow B) → Flow B
◌>>=◌ m f d = follow (m d) f

abbrev pub ◌>>◌ : {B : Type 0} → Flow (Unit {0}) → Flow B → Flow B
◌>>◌ m k d = follow (m d) (λ u. k)

abbrev pub done : {A : Type 0} → A → Flow A
done a d = (ok a, d)

-- A call that leaves the disk alone
abbrev pub lift : {E A : Type 0} → (E → FlowError) → Result E A → Flow A
lift wrap (ok a) d = (ok a, d)
lift wrap (err e) d = (err (wrap e), d)

abbrev pub wrapped :
    {E A : Type 0} → (E → FlowError) → Result E A × Disk → Result FlowError A × Disk
wrapped wrap (ok a, d) = (ok a, d)
wrapped wrap (err e, d) = (err (wrap e), d)

-- A call that changes the disk
abbrev pub call : {E A : Type 0} → (E → FlowError) → (Disk → Result E A × Disk) → Flow A
call wrap m d = wrapped wrap (m d)

abbrev pub require : Bool → FlowError → Flow (Unit {0})
require true e d = (ok tt, d)
require false e d = (err e, d)

-- The content of a file, and the disk with a file or without one
abbrev pub content_of : Option Entry → Option Bytes
content_of (some (file content)) = some content
content_of _ = none

abbrev pub put_content : Bytes → Option Bytes → Disk → Disk
put_content p none d = remove p d
put_content p (some content) d = write_file p content d
