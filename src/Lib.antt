-- ===== src/Lib.antt =====
-- The inspector unpacks smart contracts: it takes a contract from the chain through a pipeline of
-- states, asks libraries for what they know of it, and stores an entry for it. The development models
-- the core of that.
--
-- - Base and its children: the names and lemmas that all files share. `Outcome` is what a Go call may
--   do: return, wait for ever on a mutex, or panic. `Returns P` says that a call returns a value that
--   satisfies P, which is total correctness.
-- - Machine: pkg/machine. `Machine` is `StateMachine` with its mutex as a field; `register_state` to
--   `get_history` are the methods of the same names; `Machine.Process` is the loop of
--   `StateMachine.Process`, a round in parts (`arrive`, `work`, `leave`, `move`). Handlers work on the
--   machine's data and return their errors as values. The context is a function that says at which of
--   its polls it is done.
-- - Models: pkg/models/contracts.go. `Contract` is the entry, `Row` a row of the table, `encode` and
--   `decode` are the two conversions, and Models.Table the four statements. The engine is SQLite, which is
--   not in the repository: `first`, `insert_row` and `update_row` of Models.Table stand for its documented
--   answers to these statements, with the unique index on network, block and address, and `Fault` for the
--   errors of its own. What a save and an update write is Models.Table.Outcomes.
-- - Unpacker: pkg/unpacker. States and Descriptor are states.go and descriptor.go, Entry is storage.go;
--   Discover, Metadata (with sources.go, parser.go and constructor.go), Providers and Final are the
--   handlers; Assembly is machine.go and unpack.go. The library solgo is the parameter `Solgo`, the
--   storage `Store`, the options and the clock `Config`; that the calls of solgo return is the
--   hypothesis `IsCalm`. Flow and Study hold what the handlers promise, Runs what a whole run does,
--   and Routes what holds of a run without any hypothesis on the library.
-- - Syncer: pkg/entries/entry.go, and of services/syncer `UnpackFromEntry` (unpack.go) and
--   `UnpackerInterceptor` (interceptors.go), with the deferred function that recovers from a panic. The
--   chain and the message queue are the parameter `Chain`.
-- - Storage: `Store` filled with the table of Models.Table, and what a run of the pipeline leaves there.
-- - Cache: pkg/cache/client.go and the options that it validates. The server and the client library are
--   the parameter `Client`.
-- - State: pkg/state: the keys, `SetDescriptorKey` and the percentage that `Descriptor` reports, with the
--   Euclidean division of math/big. State.Store is `Set`, `Get`, `Exists` and `Load` over the cache;
--   State.Store.Recovery is about a process and the one that takes over its cache.
-- - Subscribers: the registry of pkg/subscribers/manager.go, its two critical sections as the steps of
--   goroutines; Subscribers.Archive and Subscribers.Head are blocks_archive.go and blocks_head.go, with
--   the hooks as functions on a world that holds the synchronization state.
-- - Syncer.Blocks, Syncer.Command and Syncer.Rpc: `BlockInterceptor` and the goroutine that it starts for
--   a deployment, `Service.Unpack`, and `Server.Unpack` of rpc.go. `BlockInterceptor` is the hook that
--   Syncer.Blocks.Spawned gives to the archive subscriber.
-- - Syncer.Injection: `InjectSubscribers`, with `GetByType` of the options; Subscribers.Requests is
--   unpacker.go of pkg/subscribers, and Subscribers.Lifecycle says which subscribers `Subscribe` starts.
-- - Syncer.Ends and Syncer.Rpc.Ends: the rounds of the runs that the syncer starts.
-- - Db: pkg/db/badgerdb.go. Models.Types: the column types. Unpacker.Construction: `NewUnpacker`.
-- - Syncer.Turns: the goroutines of `BlockInterceptor`, in any order of their rounds, over the one table.
-- - Subscribers.Groups: errgroups, with `Subscribe` and `Close` of the manager. When a subscriber
--   returns by itself, and which look at a context that is done already, are parameters. Syncer.Service: `NewService` of services/syncer/service.go
--   with the connections that it opens, Syncer.Service.Program its entrypoint.go;
--   Syncer.Service.Running: `Start`, with `Monitor`, the profiling server
--   and the server of remote calls. Query: services/query. JsonRpc: pkg/rpc/server.go.
-- - Boot: main.go, with the paths of pkg/options/options.go, pkg/logger/logger.go and pkg/app/app.go.
-- - Options: the networks, queues and transports of pkg/options.
-- - Graph: the resolvers of pkg/graph: Graph.Networks is network.go, Graph.Contracts contracts.go with the
--   cursors of pkg/models, Graph.Unpack unpack.go. `Library` stands for base64, gob, what goqu makes of a
--   limit and how SQLite compares; `Broker` for NATS. Graph.Preloads is helpers.go, Graph.Cache cache.go. Graph.Order and Graph.Pages follow a client through
--   the pages of the query.
--
-- Logging is modelled only where the fields of a line read something that may be nil. The loop of
-- `Process` runs on fuel, one unit for a round: seven are enough for a run from `discover`, since no stage
-- is visited twice, one where the first handler ends the run, and eight for any run: a stage whose job
-- was not discovered goes back to `discover` once. The loop of the archive subscriber runs on
-- fuel too, one unit for a number.
--
-- A turn of Syncer.Turns is a whole round: a handler makes one statement on the database at most, what else it
-- does is its own, and the files of two contracts stand in different directories. The marks that the
-- goroutines set after their runs are Syncer.Blocks. In an errgroup the goroutines are listed in the order in
-- which they return.
--
-- Not modelled: the tables of commands, the migrations, the generation of code and the generated GraphQL
-- code, the wiring of the GraphQL router and the loading of the configuration, which only call libraries.
-- Numbers of blocks and networks are natural numbers; addresses and hashes are numbers, a connection or
-- another pointer of a library is a number, and a time is a number.
pub mod Base
pub mod Boot
pub mod Cache
pub mod Db
pub mod Graph
pub mod JsonRpc
pub mod Machine
pub mod Models
pub mod Options
pub mod Query
pub mod State
pub mod Storage
pub mod Subscribers
pub mod Syncer
pub mod Unpacker
