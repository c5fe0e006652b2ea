-- ===== src/Lib.antt =====
-- Verification of DTVN, a network of nodes that validate tickets: the consensus of the nodes, the
-- state that each one keeps and stores, the gossip between them, and the supervisor that runs them.
--
-- A client's operation on a ticket becomes a `Request`. The primary proposes it in a PRE-PREPARE,
-- the nodes exchange PREPAREs and COMMITs, and each node that holds a quorum of COMMITs hands the
-- request to its handlers, which apply it to the node's `StateMachine`. The machine stamps each
-- change with a vector clock, and nodes that exchange their tickets merge them by these clocks. A
-- node stores its tickets in a database and loads them when it starts. The router gives an incoming
-- message to consensus, to the merge of tickets or to their synchronization with a peer. Clients
-- reach a node through its HTTP API, or through the supervisor, which runs the processes of nodes
-- and of a simulator and passes requests on to the primary.
--
-- Prelude        lists, Boolean tests, Go maps (`GoMap`), `int64` (`Int`) and its decimal notation
-- State          pkg/state
--   VectorClock  vectorclock.go: `VectorClock` and its methods under their own names. Order: what
--                `Compare` decides. Merge: what the methods that write do to the counters
--   Machine      machine.go: `StateMachine` and its methods. Merge: `MergeState`, with Invariant
--                and Converge. Ops: the methods that change a ticket, as data, and runs of them.
--                Lifecycle, Errors, Invariant: what holds of such runs
--   Notifier     machine.go: `StateNotifier`, with Delivery
-- Consensus      pkg/consensus
--   Types        the records of messages, requests and votes, from pbft.go and quorum.go
--   Quorum       quorum.go, with Votes and Intersection
--   Messages     messages.go, over the protobuf library as the parameter `Protobuf`; RoundTrip
--   Pbft         pbft.go. The node's state and small helpers stand in the parent; Execute
--                (`executeRequest`, callbacks, `createCheckpoint`), Phases (`ProposeRequest`,
--                `handlePrePrepare`, `HandlePrepare`, `HandleCommit`, `moveToCommitPhase`), Views
--                (`initiateViewChange`, `HandleViewChange`), Checkpoints (`HandleCheckpoint`,
--                `garbageCollect`), Network (`HandleNetworkMessage`, `processMessages`) and Inputs
--                (everything that can happen to a node, as data) hold the rest. Core, Executed, Votes,
--                Safety with Runs, Phases/Quorate, Views/Moves and Checkpoints/Stable hold proofs
-- Gossip         pkg/gossip
--   Message      the record of engine.go
--   Bloom        cache.go: `BloomFilter`, with Members
--   Cache        cache.go: `MessageCache`. Elements: what the list holds. Recency: the cache as a
--                window on the messages in order of use. History: runs against the ideal order
--   Peers        engine.go: `selectRandomPeers`, with Sample
--   Engine       engine.go: `GossipEngine`, with Relay: what a message does. Cleanup, Oldest, Left and
--                Forget: what a cleanup drops. Runs: everything that can happen to an engine
-- Storage        pkg/storage/store.go: `Store`, over BoltDB and encoding/json as the parameters
--                `Bolt` and `Json`. Keys: `sequenceKey`, with Sorted. Laws: what is relied on, and
--                a save followed by a read. Latest: `GetLatestCheckpoint`
-- Validator      cmd/validator/main.go: the node, with the handlers that `setupHandlers` registers,
--                `persistTicket` and `loadTicketsFromStore`. Convert: the forms of a ticket. Sync:
--                the updates and `handleStateSyncResponse`, with Safe. Seed: `SeedTickets`, with
--                Forgets. Api: `ValidateTicket`, with Wait and Confirmed. Restart, with Records, and
--                Replay, with Once, hold proofs
-- Network        pkg/network
--   Router       router.go: `MessageRouter`, with Delivery
-- HttpApi        pkg/api/server.go: the handlers that change tickets, over `ValidatorInterface`. Once:
--                a node fills the interface, and requests to it. Access: the API key and the
--                origins, of pkg/supervisor/server.go too
-- Supervisor     pkg/supervisor
--   Buffer       manager.go: `OutputBuffer`, with Last
--   Manager      manager.go: `NodeManager` over a store of entries. Process: the goroutine of a
--                node's process. Cluster: `StartCluster`, with Names and Ports. Valid, Runs, Packed,
--                Ports and Exits hold proofs
--   Simulator    simulator.go: `SimulatorController`. Dedup: `isDuplicateLine`, with Recall. Config:
--                `ValidateConfig`, with Tolerates. Single: the controller with its goroutine, as a
--                step relation. Requests: its handlers of server.go
--   Server       server.go: the callbacks, the handlers of nodes and clusters, and
--                `refreshPrimaryStatus`, with Throttle, Restart and Primary
--   Proxy        proxy.go: the choice of a node, over the parameter `Client`, with Primary. Forward:
--                what is passed on to it. Route and Seed hold proofs
-- Examples       the theorems at concrete inputs
--
-- How the code is read. A method under its lock is one step, a function from the state to the
-- state and an error. A Go map is an association list without order: a loop over a map visits the
-- entries in the order of the list. Byte slices and strings are texts. `int64` and `uint64` keep
-- their wrap-around where the code increments; sizes of maps and slices, and the number of nodes,
-- are natural numbers. Time, the hash, the connected peers and protobuf are arguments. A
-- broadcast, a timer's reset and the start of a callback are recorded as effects. Loops are
-- recursion on lists. Only the decimal notation of `n` runs on fuel, `n + 1` rounds, and
-- `format_from-enough` in Prelude/Decimal says that no more are needed. What `ValidateTicket` waits
-- for is the list of what happens, in its order: when the list ends, the call is still waiting.
--
-- What is not modelled. `ProposeRequest` gives its lock up between two critical sections: the case
-- in which no other step comes between is modelled. Printing is left out, and so are, but for the
-- processes that the supervisor runs, `Start`, `Close`, cancelled contexts and the goroutines
-- themselves: a round of a loop is one step. So are the construction of a node, the libp2p host and
-- discovery, the routes, the WebSocket clients and the getters of the two servers, and the timeouts
-- of the waits, which are input and output. The nodes behind the proxy answer one thing while a
-- request is handled. A handler of the state machine is taken not to change its ticket. What BoltDB
-- and JSON do is said by `IsBolt` and `IsJson`; a database with room for one entry in Examples/Disk
-- shows that it can hold.
pub mod Prelude
pub mod Consensus
pub mod State
pub mod Gossip
pub mod HttpApi
pub mod Storage
pub mod Network
pub mod Validator
pub mod Supervisor
pub mod Examples
