-- ===== src/Lib.antt =====
-- dvm: a command-line tool that boots a Linux virtual machine from components (kernel, initrd, root
-- file system) given as local paths or as references to an OCI registry.
--
-- The program's parts, and the files that model them (paths from the repository's root):
--   * internal/platform/dirs.go: Platform.antt. Directories and the default guest architecture.
--   * internal/component: Component/Refs.antt (ParseRef, Abs) and Component/Resolver.antt (Resolve).
--     A reference is classified by its spelling and, between the rules, by a stat call. The
--     resolver calls a fetcher, whose state it passes on.
--   * internal/cache/cache.go: Cache/Disk.antt is the disk, a function from paths to entries, and
--     Cache/Store.antt has New, BlobPath, Has, PutStream and Verify on it, with each way out of
--     PutStream and its deferred removal of the temporary file.
--   * internal/oci: Oci/Manifest.antt (manifest.go) and Oci/Pull.antt (pull.go). Fetch resolves a
--     reference, descends an image index, selects a layer, checks the sidecar and stores the blob
--     in the cache.
--   * internal/app/config.go: Config/Defs.antt, Load.antt, Validate.antt and PortSpec.antt.
--   * internal/app/app.go: App/Flags.antt (mergeFlags), App/Create.antt (New), App/Forwards.antt
--     (forwards, service lines, probes), App/Engine.antt (the choice of the engine),
--     App/Seeding.antt (buildSeed), App/Start.antt (qemuPaths, startQEMU), App/StartVz.antt
--     (startVZ, Start) and App/Manage.antt (Status, Clean). App/Flow.antt has the chain of calls
--     that a start is: each can fail, and all work on one disk. App/Version.antt is version.go.
--   * internal/qemu: Qemu/Accel.antt, Network.antt, Control.antt, Command.antt and Monitor.antt
--     (accel*.go, network.go, control.go, command.go, qmp.go); Qemu/Download.antt (EnsureQEMU and
--     its checks) and Qemu/Tar.antt (extractTarGz) for download.go.
--   * internal/vm: Vm/State.antt (state.go: paths, the lock and the pid line), Vm/Overlay.antt
--     (overlay.go and prepareDisk), Vm/Start.antt (startQEMU and startWithAccelFallback of
--     lifecycle.go), Vm/Seed.antt (seed.go), Vm/Ready.antt (readiness.go, ports.go), Vm/Console.antt and
--     Vm/Foreground.antt (console.go, and what supervise of lifecycle.go does before its wait),
--     Vm/Stop.antt (supervise and shutdown of lifecycle.go), Vm/Run.antt (Run of lifecycle.go,
--     control_unix.go, control_windows.go) and Vm/Processes.antt (proc_unix.go, proc_windows.go, the
--     hints of accelhint_*.go and the console mode of console_windows.go). Vm/Runs.antt has several
--     processes that take, release and abandon one lock, as a step relation whose steps are calls
--     of AcquireLock; in that of Vm/Race.antt the steps are the calls of the operating system within
--     AcquireLock, so that two processes can be in the middle of it at once.
--   * internal/vz: Vz/Addresses.antt (forward_darwin.go: the leases, ARP and the hardware address),
--     Vz/Network.antt (manageNetwork, proxyPort, pipe and dialUntil of it), Vz/Overlay.antt (the
--     disk, randomMAC and Supported), Vz/Supervise.antt (the two loops over the changes of state) and
--     Vz/Run.antt (Run) for vz.go, vz_darwin.go and vz_stub.go.
--   * cmd/dvm/main.go: Cli/Commands.antt (the choice of the command, and what is done with the flags
--     once they are read), Cli/Table.antt (the flags that runCommand declares), Cli/Main.antt (main
--     and runCommand, from the arguments to the exit code and the disk). Cli/Arguments.antt and
--     Cli/Numbers.antt are Go's package flag as far as the program uses it.
--   * internal/logging/logging.go: Logging.antt. What the other parts log is modelled for the
--     supervision of a machine only, as notices (Vm/Foreground.antt, Vm/Processes.antt,
--     Vz/Network.antt).
--
-- Base.antt and the files under Base have what these share: Go's strings as lists of byte values,
-- int as an integer type of its own, results, the file path functions, and the tests on numbers.
-- Host.antt is the operating system as the code asks it: files, directories and an HTTP client.
--
-- Loops over lists are structural recursion, so no fuel is needed. The loop that waits for a QMP
-- reply runs over the replies that arrive, and fails where they end. So do the loops that wait: for a
-- port, the guest's address or the monitor, over the rounds that are tried before the deadline, whose
-- end is the end of the wait; for the end of a machine of Apple's framework over the events, behind
-- which the machine stops; and for the console over the keys, behind which the input ends. So every
-- run ends, and what a run defers is done at an end only.
--
-- Parameters of the model are what is not in this repository: the YAML and JSON decoders, the
-- registry client, SHA-256, qemu-img, the objects of Apple's framework, and the operating system,
-- whose calls can fail where the code looks at an error; qemu-img can
-- leave any disk, also where it fails. The loop of AcquireLock has
-- the two attempts of the code as fuel. Integers of Go are unbounded here, but for the flags, whose
-- numbers are refused outside of 64 bits; the modelled code computes with none but the number at the
-- head of a system's version and the port that a message suggests.
--
-- The disk that a start works on is the part of the file system that the program writes; reading a
-- local component goes through Host. Two processes that share the disk are modelled for the lock only.
-- What runs beside the supervision (the pump of the serial port, the proxies) is a function of the
-- events it meets, without an order between these and the events of the supervision.
--
-- Not modelled: the objects of Apple's framework (each call succeeds or fails), the bytes that a proxy
-- relays, the texts of errors, of the usage and of most log lines, the modes of files, and the mutex
-- of the logger.
pub mod App
pub mod Base
pub mod Cache
pub mod Cli
pub mod Component
pub mod Config
pub mod Host
pub mod Logging
pub mod Oci
pub mod Platform
pub mod Qemu
pub mod Samples
pub mod Vm
pub mod Vz
