-- ===== src/Lib.antt =====
-- Azure Event Hubs for Go: its client for one event hub, and what its hosts do to share the
-- partitions of the event hub.
--
-- Every host runs a scheduler (eph/scheduler.go) that looks at the leases of the partitions, takes
-- those that have expired, steals one from the busiest host where the load is uneven, and runs a
-- receiver for each partition that it holds (eph/leasedReceiver.go), which renews the lease. The
-- leases and the checkpoints are kept by a leaser: in memory (eph/memory.go) or in the blobs of a
-- storage container (storage/storage.go), which a credential gives access to
-- (storage/credential.go). Events travel as AMQP messages (event.go); a receiver (receiver.go) hands
-- them to a handler and stores the offset of those that the handler has accepted, and a sender
-- (sender.go) sends them, recovering its link where that fails.
--
-- A client of one event hub (hub.go) holds a namespace (namespace.go), receivers by their
-- identifiers and one sender, and asks the management node (amqp_mgmt.go); the event hubs of a
-- namespace are managed over HTTP (http_mgmt.go, and HubManager in hub.go). The Event Processor
-- Host (eph/eph.go) makes such a client, gives it its checkpointer as offset persister, and runs
-- the scheduler with the handlers that are registered. A program of _examples/batchprocessing is
-- handler and offset persister of a receiver at once: it prints the events in batches.
--
-- Base, Dict and Go hold what the models share: native numbers and lists, maps with string keys,
-- and Go's panics, errors and fixed-width integers; a call of an outside service is a function of
-- the world that returns a result or an error. Go.Text is what the program uses of Go's packages
-- strings and path.
-- * Eph.Lease models eph/lease.go.
-- * Eph.Memory models eph/memory.go: Store is sharedStore, Leaser and Checkpointer are
--   memoryLeaserCheckpointer. Hosts puts several leasers over one store; AcquireLease is four steps
--   there, since it takes the store's mutex anew for each.
-- * Eph.Scheduler models eph/scheduler.go and eph/leasedReceiver.go: Balance is leaseToSteal and what
--   it uses, Expired is acquireExpiredLeases, Receivers has the starting, renewing and stopping, with
--   the fields `done` that are nil until a goroutine has set them, and Scan the scan, which Loop repeats as Run does. Serving is what its operations keep true of the
--   receivers (Served, Running). Services lists what they call.
-- * Storage models storage/storage.go (Blob, Leaser, Operations, Checkpointer) and
--   storage/credential.go (Credential); Configuration has the constructors of both.
-- * Eph.Host models eph/eph.go: New has the constructors, Running has setup, Start and Close,
--   Composite the handlers together; InMemory is the in-memory leaser and checkpointer as a host
--   sees them, and Scheduled is Eph.Scheduler so.
-- * Event models event.go, Sender models sender.go (Sending: Send), and Receiver models receiver.go
--   and session.go (Handling: the messages; Listening: the loop that takes them from the link).
-- * Namespace models namespace.go, Management models amqp_mgmt.go, Management.Http and
--   Management.Texts model http_mgmt.go.
-- * Hub models hub.go: Hub itself has the constructors and options, Client has Receive, Close and
--   the sender, Handles what closes and names them, Sending has Send and SendBatch, Information
--   what the management node is asked, and Manager is HubManager. Reachable has the hubs that the
--   operations lead to.
-- * Batching models _examples/batchprocessing: Batching itself is batchWriter.go, Main is main.go up
--   to where it waits for a signal. Buffer has what the writer keeps true, and Received its run
--   under a receiver.
-- * HelloWorld models what the two programs of _examples/helloworld begin with, and Consumer and
--   Producer what each does then.
-- * Tests runs the theorems at concrete inputs.
--
-- A method has its Go name in snake case. Where it panics, a model returns `panicked`; errors are
-- values. The clock, the random choices and the order of a range over a map are arguments: a theorem
-- holds for all of them, or names what it needs of them. Times are natural numbers of nanoseconds. An
-- epoch is an int64 with its wrap-around. All loops are recursions on the list that they run over,
-- but for four. That of trySend in Sender goes on while the service fails: it has fuel, one unit for
-- each round, and how much is enough depends on how often the service fails. That of listenForMessages
-- in Receiver.Listening goes on until the context ends: it runs for as many rounds as a list has
-- entries, each of which says whether another goroutine ends the context in that round.
-- The loops of scheduler.Run (Eph.Scheduler.Loop) and persistLeases (Storage.Checkpointer), which end
-- when somebody stops them, run in the same way by rounds, between which the others act. The loop of
-- HelloWorld.Producer runs over the lines that it reads, and gives each Send the same fuel.
--
-- Not modelled: spans and logs, sleeping, mutexes where a method holds one throughout, the XML types
-- of atom/atom.go, tracing.go, and internal/math.go. What runs in goroutines of its own has a
-- model of its own: the receivers of a hub listen by Receiver.Listening, the scheduler of a host runs
-- by Eph.Scheduler.Loop. A nil pointer that only misuse inside the package could bring about is
-- left out where a comment says so. The packages azblob, amqp, cbs, rpc, conn, sas, aad, persist,
-- uuid, io, mgmt, azauth, mapstructure, net/http, encoding/xml and encoding/json are parameters.
pub mod Base
pub mod Dict
pub mod Go
pub mod Eph
pub mod Storage
pub mod Event
pub mod Namespace
pub mod Receiver
pub mod Sender
pub mod Management
pub mod Hub
pub mod Batching
pub mod HelloWorld
pub mod Tests
