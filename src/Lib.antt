-- ===== src/Lib.antt =====
-- A commit log, its replication over Raft and the services around it.
--
-- The program appends records to a log of segments on disk. A segment is a store file of records
-- with their lengths and a memory-mapped index of their positions. Raft uses the same log twice:
-- to keep its own entries, and as what its state machine appends to. Handlers serve the log, Serf
-- tells a node of the others, an older replicator copies from each of them, an agent puts a node
-- together, and a Pebble database can take the place of Raft's stores.
--
-- Base: lists, slices, words and results over the native numbers. Go's (value, error) is
-- `Result`; an operation that changes its receiver returns the new state beside it. The error
-- `fault` stands for a panic or an access to unmapped memory. A uint64 is a number with its
-- wrap-around written out (add64, sub64).
-- CommitLog.Store: internal/log/store.go. A store has the file's bytes, the buffered bytes, the
-- writer's sticky error and the size; bufio.Writer and os.File.ReadAt are written out.
-- CommitLog.Index: internal/log/index.go. The mapped bytes are those of the file.
-- CommitLog.Segment: internal/log/segment.go. protobuf's encoding of a record is a parameter,
-- with the law that decoding what was encoded gives the record back.
-- CommitLog.Files: the directory of a log, and the names of the files in it.
-- CommitLog.Log: internal/log/log.go. `segments` of the log are the older ones and the active
-- one, which is a pointer to the last of them or to one that Truncate has removed. NewLog,
-- setup and newSegment stand in Log, the other methods in Log.Operations; IsSound in
-- Log.Invariant is the invariant: segments that follow one another, whole store and index
-- files, room in the last. Log.Refinement is the log as its callers see it, a list of records; its
-- condition IsRegular asks for an index limit that is a multiple of 12, which the default of 1024
-- is not, and Log.Capacity is about other limits.
-- Log.Rereading says what Read leaves, since it flushes buffers. Log.Stored says that a
-- directory has just the files of the segments; Log.Reopening follows Close and NewLog over the
-- files, and Log.Durability puts both together. Log.Reader is Reader, io.MultiReader,
-- io.ReadAll and the Persist of internal/log/distributed/snapshot.go.
-- Distributed: internal/log/distributed. LogStore is store.go, Fsm is fsm.go with Append and
-- apply of distributed.go, Fsm.Replay what Restore makes of a snapshot, and Fsm.Replicas compares
-- nodes that apply the same entries; Fsm.History is a node that is read while Raft applies
-- entries, and Cluster has Append of distributed.go on one node and Read on others. Membership is
-- Join and Leave of distributed.go over a Raft node as a parameter, Following puts it behind the
-- events of Serf, Startup has the other methods; StreamLayer is stream_layer.go with the matcher
-- of internal/agent/agent.go.
-- Discovery: the event loop of internal/discovery/membership.go, and its set-up in
-- Discovery.Startup; the handler and Serf are parameters.
-- Auth: internal/auth/authorizer.go and internal/http/auth.go, composed as
-- internal/agent/agent.go composes them; casbin and connect are parameters. Rpc: the client and
-- the handler of gen/log/v1/logv1connect/log.connect.go, with the access control around it.
-- Command: the flags and the action of cmd/server/main.go; Command.Exit is how it ends.
-- Agent: internal/agent/agent.go, over the operations of its parts. Net:
-- internal/net/random_port.go; Net.Tls and Net.Client are internal/http/client.go. Otel:
-- internal/otel/setup.go.
-- Server: the handlers of internal/server/log.go over the interface CommitLog, which internal/log
-- fills, and error.go. A stream is a function of what happens in each round: what others did to
-- the log, what Receive and Send return. Server.Interceptors is the rest of error.go and
-- logging.go, Server.Consuming and Server.Producing what the handlers do over any commit log, and
-- Server.Streams ConsumeStream over internal/log.
-- Replicator: internal/log/replicator/replicator.go. Channels are numbered as they are made, so
-- that closing one twice is visible. Replicator.Receiving is replicate with the goroutine that it
-- starts, as a step relation over the channel between them, Replicator.Blocking the goroutine
-- when replicate has returned, and Replicator.Copying replicate between two logs.
-- RaftPebble: internal/raftpebble. Pebble is a parameter with the order of its keys, and with
-- what a read sees after a write or a range deletion that reported no error. RaftPebble.Config is
-- config.go and options.go, RaftPebble.Events the workers of the event listener, as a step
-- relation, RaftPebble.Opening the options for Pebble, RaftPebble.RoundTrip what is read after a
-- write, and RaftPebble.Contract a map from indexes to logs that the log store is held against.
-- RaftPebble.Memory is a database in memory, for the tests.
--
-- Fuel: the loop of Restore runs on as many rounds as the snapshot has bytes, and each round
-- takes eight of them at least; io.ReadAll runs on one round more than there are bytes, since a
-- round that does not end it reads one byte at least; the printing of a number runs on one round
-- more than the number; GetAvailablePort has the thousand rounds of the code. All other loops
-- recurse on a list.
--
-- Operations are taken one after the other, as the mutexes order them. A system call fails only
-- where its arguments or the state of the file make it fail. An offset of 64 bits may wrap; where
-- a theorem needs that it does not, that is a condition (HasRoom, or a bound on the offset).
-- Two failures are left out: that of make for a length that an int holds and the memory does not,
-- in Store.read, and that of msync for a size beyond the mapped pages, in Index.close.
--
-- Not modelled: what is only a call of a library (the reading of flags, the propagator of
-- telemetry, the wrapping of errors by fmt), logging, the .env files, the generated messages but
-- for Record, and the build tools.
pub mod Agent
pub mod Auth
pub mod Base
pub mod Command
pub mod CommitLog
pub mod Discovery
pub mod Distributed
pub mod Net
pub mod Otel
pub mod RaftPebble
pub mod Replicator
pub mod Rpc
pub mod Server
