-- ===== src/Lib.antt =====
-- bridge-operator: a verification library for the Kubernetes operator of Linux bridges.
--
-- A daemon on each node keeps the bridges of the node as the `BridgeConfiguration` objects of the
-- cluster want them: it creates a bridge, attaches physical interfaces and VLAN interfaces, sets
-- the VLAN ids of these ports, records which bridges and ports are its own, and reports the
-- bridges as `BridgeInformation` objects. It is told of configurations by an informer, and runs
-- three jobs periodically.
--
-- The parts, from the bottom up:
--   Types: the API types (api/bridgeoperator.k8s.cni.npwg.io/v1alpha1/types.go).
--   Netlink, Cluster: the kernel and the API server, as the records `Kernel` and `Cluster` of
--   operations on a type of worlds. They are parameters of all that follows, since netlink,
--   client-go and apimachinery are not code of this repository.
--   State: the state of the daemon (`Server`, pkg/server/server.go), with the world and the
--   mutating calls made so far, and actions on it, which return or panic. State/Keeps,
--   State/Gives, State/Yields, State/Safe and State/Issues are the rules to reason about actions.
--   Ports: the tables `managedBridges` and `managedBridgePorts` and their methods
--   (pkg/server/server.go).
--   Egress, VlanName, Vlan, Filtering, Bridge: the physical interfaces, the VLAN interfaces and
--   their names, the VLAN ids, and the life of one bridge (pkg/server/bridgeconfig.go).
--   Server, PortWatch, InfoUpdate: the handlers of configurations, and the periodic jobs
--   `bridgeWatch`, `bridgePortWatch` and `bridgeInfoUpdate` (pkg/server/server.go).
--   Dispatch, Tracker: the notifications of the informer, and the tracker of changes
--   (pkg/controllers/bridgeconfig.go).
--   Daemon: all handlers and jobs, in any order, as a step relation.
--   Ports/Table: the table of ports as a partial function, which the methods implement.
--   Threads: `SetPortManagement` in three steps, with other goroutines between them.
--   Shutdown: how `Server.Run`, `BridgeConfConfig.Run` and the loops of the runners start and end,
--   one loop after the other, and the signals and the end of the process, which may also be a panic
--   (cmd/bridge-operator-daemon/main.go).
--   Informers: the factory of shared informers (pkg/client/informers/externalversions), and what
--   `Server.Run` sets up with it.
--   Client: the generated clients, their fakes, and the set of clients
--   (pkg/client/clientset/versioned). A request and an action are the chain of calls that builds it.
--   Listers: the generated listers (pkg/client/listers), over an indexer of client-go.
--   Memory, DeepCopy: slices in memory, and the generated copies of objects and lists
--   (api/bridgeoperator.k8s.cni.npwg.io/v1alpha1/zz_generated.deepcopy.go).
--   Options: the start of a daemon (pkg/server/options.go and `NewServer`), and its command with the
--   flags (cmd/bridge-operator-daemon/main.go).
--   DaemonSet, Operator: the daemon set, and `main` of the operator, which has it created (main.go).
--   Prelude and GoMap: shared tests, lists and maps. Examples: concrete runs.
-- A function has the name of the Go function in snake case; a part of a Go function that has a
-- name of its own has a comment that says which part it is.
--
-- How the program is modelled:
--   A handler or job runs as a whole, so that the mutexes do nothing. In the source the jobs run
--   in goroutines of their own and read the tables outside the locks; what this does to
--   `SetPortManagement` is in Threads. A method of the informer factory holds its lock throughout.
--   A read of the kernel or of the API server does not change the world; the world changes by the
--   calls of the daemon, and between two handlers in any way.
--   Dereferencing a nil pointer or a failed type assertion is a panic, which ends the run.
--   A Go map is an association list. Go ranges over a map in any order, and a state of the model
--   may hold the entries in any order.
--   An `int` is an integer without bounds, an index of a link a natural number; the conversion of
--   an index to `int32` is written out. Texts of errors are shortened, and log lines left out.
--   The digits of a number are found on fuel: `decimal n` has fuel n + 1, and a number has no more
--   digits than that.
--
-- Not modelled: the parse of the flags of the two commands, the runners' rate limits, events, the
-- reconcilers of the operator, which are empty (controllers/), and the set-up of schemes and of the
-- fake set of clients.
mod Prelude
pub mod GoMap
pub mod Types
pub mod Netlink
pub mod Cluster
pub mod State
pub mod Ports
pub mod Egress
pub mod VlanName
pub mod Vlan
pub mod Filtering
pub mod Bridge
pub mod Server
pub mod PortWatch
pub mod InfoUpdate
pub mod Dispatch
pub mod Tracker
pub mod Daemon
pub mod Threads
pub mod Shutdown
pub mod Informers
pub mod Memory
pub mod DeepCopy
pub mod Client
pub mod Listers
pub mod Options
pub mod DaemonSet
pub mod Operator
mod Examples
