-- ===== src/Lib.antt =====
-- Verification of dragon-cluster-resp-proxy, a proxy between RESP clients that know nothing of clusters
-- and a Dragonfly or Redis cluster. A client's bytes are read as RESP values (internal/resp), the keys
-- of a command are found (internal/command), its slot and node are looked up (internal/cluster), and
-- a session (internal/proxy) runs it, rewritten for the client's virtual database, over connections of
-- a pool, and gives back the reply with the database's prefix taken off.
--
-- The parts and their files:
--   Base          bytes, slices (a nil []byte differs from an empty one), lists and integers over the
--                 native numbers, results, and `Go A`, a result or a panic of the runtime
--   Resp          internal/resp: `Value` and its constructors (Value), Encode (Encode), strconv's
--                 decimal numbers (Decimal), ReadValue with the raw bytes that it captures (Reader),
--                 EqualFoldASCII, UpperASCII and ArrayToArgv (Ascii)
--   Cluster       internal/cluster: crc16.go (Crc16), slot.go (Slot), topology.go (Topology and, for
--                 the replies of CLUSTER SLOTS and CLUSTER SHARDS, Topology/Parse), router.go: the slots
--                 of keys (Routing), the nodes and the pools (Router), the refresh (Router/Refresh) and
--                 execFrame with its redirects (Router/Exec), over an interface of the pools (`Net`)
--   Command       internal/command: table.go (Table), command.go (Positions, Keys, Classify), db.go
--                 (Database for commands, Reply for replies), fanout.go (Fanout)
--   Config        internal/config: config.go (Config), load.go (Load)
--   Pool          internal/pool/pool.go: the connections of a pool and who holds them (Pool),
--                 the dial and the requests on a connection (Pool/Dial)
--   Proxy         internal/proxy: session.go, with MULTI, EXEC, DISCARD, SELECT, WATCH and UNWATCH
--                 (Transaction), the fields and what a session asks for (Service), fan-out (Fanout),
--                 MOVE, COPY, FLUSHDB and RANDOMKEY (Keyspace), handle, doBlocking, PUBLISH and the
--                 subscribed state (Dispatch); local.go (Local); pipeline.go (Pipeline); and the
--                 session's interfaces (`Backend`, `Service`) filled by the router's operations (Wiring)
--   Pubsub        internal/pubsub/pubsub.go: the channels of a subscribed client, over an interface of
--                 the router and the acknowledgements (`Hub`)
--   Examples      the theorems and the definitions at concrete inputs
--
-- Names follow the source in snake case: `ReadValue` is `read_message` with `read_value` for the
-- recursive part, `KeyIndexes` is `key_indexes`. A nil pointer is `none`, a method of a shared object
-- takes the state and gives the new one, and a runtime panic is `err panic` (in the reader `crashed`).
--
-- Integers: an `int` is 64 bits wide. Where a sum or a product can wrap around, the wrap is written out
-- (`signed64`, `add64`, `int_sum`, `int32`); indexes and lengths are natural numbers. The pool's counter
-- of active connections, an int32, does not wrap around here: there are fewer than 2^31 connections.
--
-- A request is a parameter of the router and of the sessions (`Net.send`, `Wire.read`), which can panic
-- as the reader can. Theorems that a request returns have the hypothesis that it does not (`Ledger`).
-- What the nodes do is a hypothesis on the requests alone (`NodeValues`, `KeyStore`, `Nodes`), in states
-- that are ready for them.
--
-- Fuel: `read_value` has one unit for each nested value, and `read_message` gives one unit more than
-- there are bytes, which is enough as each level reads a line of two bytes at least (Resp/Reader/Fuel).
-- `digits` has one unit more than its number, and a number has no more digits than that. `fill` has one
-- unit for each slot from the first on, and the loop ends at the last slot.
--
-- `scan_loop` has one unit for each round of SCAN, which the source does not bound; `cmd_flush_db` gives
-- none where there are more rounds. `hops` has one unit for each hop up to MovedHopLimit, as the source.
--
-- Not modelled: what sockets, TLS and deadlines do, logging and metrics; the read loop of a session,
-- the accept loop and shutdown; the callers that wait for a connection. The goroutines of a fan-out
-- and of a batch are run one after the other, in the order in which they start; those of pub/sub are
-- the function that decides what a value leads to (`forward`) and a parameter that gives the next
-- acknowledgement. `strings.ToLower`, `strings.ToUpper`, `strings.TrimSpace` and `bytes.EqualFold` are
-- modelled on ASCII.
pub mod Base
pub mod Resp
pub mod Cluster
pub mod Config
pub mod Pubsub
pub mod Command
pub mod Examples
pub mod Pool
pub mod Proxy
