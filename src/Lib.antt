-- ===== src/Lib.antt =====
-- The Niova block CSI driver (niova/niova-block-csi): a controller service and a node service of the
-- Container Storage Interface. The controller turns requests for volumes into vdevs of the Niova
-- control plane. The node service makes a vdev usable on its machine: it starts a daemon that serves
-- the vdev as a ublk block device, formats and mounts the device, bind mounts it into pods, and
-- undoes all this.
--
-- The parts, and the files that model them:
--   * pkg/config/config.go, the connection to the control plane: Config. Config/Plane is the control
--     plane as the program calls it (niova-mdsvc, Kubernetes, the environment), Config/Manager is
--     `ConfigManager` with its login token, mutex and methods, RetryAuth and its login included.
--     Config/Retry, Locks, Lawful, Refresh and Operations are the proofs about it; Lawful holds the
--     laws of a control plane that keeps one list of vdevs and tells an expired token by its message.
--   * pkg/controller/controller.go, the controller service: Controller. Controller/Server has a
--     function per handler, and a child module per subject of its proofs. A handler runs on a
--     `Manager`, takes and frees its mutex where the code does and returns the code's status codes.
--   * pkg/types/types.go: Types. `Node` is the volume map, a `map[string]*NodeVolume`, as a map to
--     pointers, a heap and the next free pointer, so that two users of one pointer see each other's
--     writes.
--   * pkg/node/mount.go: Node/Mount. pkg/node/systemd.go: Node/Systemd. pkg/node/ublk.go: Node/Ublk.
--     Node/Info has what these read without a caller: GetMountInfo, probeFilesystemInfo, GetUblkDeviceInfo
--     and prepareTargetPath.
--     pkg/node/node.go: Node/State (the map and what is read from requests), Node/Server (the
--     server's state), Node/Stage and Node/Publish (the handlers). Node/Host is the machine as they
--     call it: files, mounts, commands, systemd, the clock, and the parser for UUIDs.
--   * pkg/driver/driver.go: Driver, the endpoint and the answers of the identity service; Driver/Run, how
--     the services are set up and served.
--   * cmd/controller/main.go and cmd/node/main.go: Commands, from the flags to the end of `Run`, with
--     Config/Clients for the clients that they make. What they call of other code is Launch
--     (Config/Clients) and Runtime (Driver/Run).
--   * the start of the node plugin, UpdateNodeVolumeMap of pkg/config/config.go: Startup, which joins a
--     connection to the control plane and a node service. Startup/Restart goes on to the first call.
--   * the handlers of pkg/node/node.go as gRPC runs them, each in a goroutine of its own: Node/Concurrent.
--     A handler is a chain of sections, and a scheduler lets one goroutine after the other run its next
--     section. Node/Concurrent/Alone compares the chain with the handler, Safe and Later are what a
--     goroutine may rely on while others run, Isolation and Schedule carry it over all schedules. Race and
--     Orphan are two calls for one volume; Settles and Progress are about whether the calls come back.
--   * what the controller hands to the node in a publish context: Handover.
--   * the requests and answers of the CSI library, as far as the code reads and writes them: Csi.
--   * package functions of Go that the code calls, as far as it uses them: Go (errors and status
--     codes, strings, path/filepath, strconv, sync.RWMutex).
--   * Prelude: shared names, Boolean tests, Go maps as association lists, signed integers.
--   * Tests: a control plane and a host in memory, runs of the model, the theorems at concrete data.
--
-- A Go function that returns an error is an `Exec` (Go/Exec): from a state to a result and the state
-- that it left, also beside an error or a panic. A result is a value, an error or a fault: nil
-- dereferenced, a lock that the caller itself holds, an unlock of what is not locked, or a loop that
-- was stopped. Each handler takes and
-- frees the mutex as in the code. Outside Node/Concurrent, the calls of a service come one after the
-- other. In Node/Concurrent a section is what the mutex covers or the work between two such parts:
-- one call of the mounts or the devices, with its clean-up, is not interleaved with another.
--
-- Plane and Host are records of functions on a state of their own; what is proved with laws for them
-- names the laws. The handlers themselves are defined for every Plane and Host.
--
-- Bounds: RetryAuth tries a call `max_retry` times at most, and is a recursion on that number.
-- The loop of waitForByUUIDLink ends by the clock; it is a recursion on 61 rounds, which is enough for
-- 30 seconds in rounds of half a second (Node/Ublk/Wait). Sizes are signed integers; those
-- that are read from text are refused outside 64 bits, as ParseInt does. The bytes of a volume are
-- compared and passed on, never added. The one sum that may wrap is the port of prepareTargetPath, and
-- `next_int` writes out how.
--
-- Not modelled: logs; Go contexts and signals, which end `Serve` from outside; the client for tests under
-- test. In error texts the escapes of %q are left out.
pub mod Prelude
pub mod Go
pub mod Types
pub mod Config
pub mod Csi
pub mod Controller
pub mod Node
pub mod Driver
pub mod Startup
pub mod Commands
pub mod Handover
mod Tests
