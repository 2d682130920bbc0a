-- ===== src/Lib.antt =====
-- The Go code of the MIT 6.5840 labs. What is modelled of the repository:
--
-- The versioned key/value service (src/kvsrv1). KvSrv/Rpc has the messages of rpc/rpc.go,
-- KvSrv/Server the server's state and its handlers (KVServer.Get, KVServer.Put: `get`, `put`),
-- KvSrv/Clerk the retry loops of client.go (Clerk.Get, Clerk.Put: `clerk_get`, `clerk_put`) over a
-- network that loses requests and replies. A schedule lists what the network does to each attempt
-- and the puts of other clients that come before it; the loops recurse on the schedule, and a
-- schedule that ends first gives `none`. KvSrv/Model has the sequential model of src/models1/kv.go
-- and KvSrv/Refine relates the handlers to it, over the operations that src/kvtest1/porcupine.go
-- records. KvSrv/Laws has what a put does to the entry of one key.
--
-- The lock (src/kvsrv1/lock/lock.go). KvSrv/Lock has each client as a program counter
-- (Lock.Acquire and Lock.Release: `client_step`), and a run as a list of events, each of them one
-- attempt of one client with its fate in the network; any interleaving of clients is such a list.
--
-- The MapReduce coordinator (src/mr/coordinator.go). Mr/Coordinator has the state and the handlers
-- (Assign: `assign`, ReportTaskCompletion: `report_task_completion`, CheckTimeout: `check_timeout`,
-- expireTasksLocked: `expire_tasks_locked`, Done: `done`, MakeCoordinator: `make_coordinator`); an
-- index out of range, where Go panics, is `none`. Mr/Coordinator/Leases has the coordinator together
-- with its workers as a step relation: a worker reports what it was assigned, once or never, as the
-- loop of src/mr/worker.go does.
--
-- The MapReduce worker and programs. Mr/Worker has what src/mr/worker.go computes for a map task
-- (ihash, the loop that encodes: `map_task`) and for a reduce task (what it finds in the directory:
-- `matching`, `reduce_task`, reduceHelper: `reduce_helper`), and src/main/mrsequential.go
-- (`sequential`), with the map and reduce functions, the sort and the order of Glob as parameters.
-- Base/Utf8 has what JSON makes of a key; values are Unicode text. Mr/WordCount has src/mrapps/wc.go on
-- the bytes of a text, which stand for its runes where the text is ASCII.
--
-- Shard configurations (src/shardkv1/shardcfg/shardcfg.go). ShardCfg has the configuration, analyze,
-- Rebalance, Join, Leave, JoinBalance and LeaveBalance under their Go names; ShardCfg/Check has
-- CheckConfig, and ShardCfg/Route has Key2Shard, GidServers and IsMember.
--
-- The simulated network (src/labrpc/labrpc.go). LabRpc has the network's maps and the operations on
-- them (MakeEnd, DeleteEnd, Connect, Enable, AddServer, DeleteServer), LabRpc/Dispatch the dispatch
-- of a request to a method, and LabRpc/Process processReq as a state machine of one request, whose
-- events stand for random numbers, timers and the schedule of its two goroutines. LabRpc/Once lets
-- the network and the servers change in any way between the steps of a request.
--
-- The raft tests (src/raft1/test.go, server.go). RaftTest has what the tests keep of the servers' logs
-- (CheckLogs, IngestLog, ApplyErr, nCommitted), RaftTest/Terms checkTerms, RaftTest/Applier the
-- servers' applier, RaftTest/Snapshot their side with snapshots (`apply_command` for a command in
-- applierSnap, and ingestSnap), RaftTest/Leader
-- checkOneLeader and checkNoLeader, and RaftTest/One one, wait and checkNoAgreement, on what the servers
-- answer in each round and at each poll.
--
-- Shared connections (src/tester1/demux). Demux has the call map of callmap.go and the client of
-- dmxclnt.go (SendReceive up to its wait: `send`, reply: `reply`, the end of reader: `reader_end`) as
-- a step relation of any number of calls, whose steps are valid until the uint32 tags wrap around.
-- Demux/Transport has the messages on the stream (transport.go: `write_call`, `read_call`), with gob as a
-- parameter, and Demux/Srv the server of dmxsrv.go, whose goroutines end in any order.
--
-- The wrapper of gob (src/labgob/labgob.go). Labgob has checkType (`check_type`) over a table of types,
-- which may refer to each other, and checkDefault (`check_default`) over the tree of a value. The tables
-- of the package unicode beyond ASCII are an instance argument.
--
-- The groups and the clients of a test (src/tester1/group.go, srv.go, clnts.go). Group has the servers of
-- a group, with their ends on the network of LabRpc: connect and disconnect (`connect_to`,
-- `disconnect_from`), Partition, MakePartition, StartServer and ShutdownServer; a process and its
-- persister are opaque. Clients has the ends of each client (ConnectTo, ConnectAll, DisconnectAll,
-- MakeClientTo, DeleteClient).
--
-- The marks on a test's timeline (src/tester1/annotation.go). Annotate/Marks has the record of closed and
-- open marks, Annotate/Fault what it knows of crashed and disconnected servers, and Annotate/Report the
-- marks of checkers and the cleanup at the end of a test. The clock's time is an argument.
--
-- The tests of the key/value services (src/kvtest1/kvtest.go). KvTest has PutAtLeastOnce, OnePut,
-- OneClientPut, CheckGet, CheckPutConcurrent and CheckAppends, with the clerk of KvSrv/Clerk;
-- KvSrv/Clerk/Sole has what that clerk does while no other client puts to the key.
--
-- The persister (src/tester1/persister.go). Persister has it with the memory that its slices point to,
-- since its callers keep the slices that they pass and get.
--
-- Bounds. Versions are numbers modulo 2^64, as `Tversion` is a uint64. Task attempts, a Go int that
-- grows by one in ten seconds at most, and times are unbounded numbers. A version that PutAtLeastOnce
-- counts up is one of `next_version`, modulo 2^64 as well.
--
-- The loop of Rebalance has fuel for 67 rounds: the number of pairs of shards in one group, 66 at
-- most, falls in each round. The loop of reduceHelper has the number of records as its fuel. The loops of
-- the raft tests have the rounds of the source, ten for checkOneLeader and thirty polls for wait; that of
-- one ends with its time, and recurses on the list of what happens until then. The loops of kvtest.go
-- that wait for a reply recurse on a list of schedules, one for each call of the clerk. checkType has fuel
-- for one more than the number of types, since each level marks a type that was not checked before; the
-- reader of a stream has one more than the number of messages.
--
-- Not modelled: sleeping and logging, sockets, files and processes; the configuration's statistics and
-- timers (src/tester1/config.go), the sizes of saved states; gob itself; and the parts of the repository
-- that are declared but not written (the raft protocol, the replicated state machine, the raft and
-- the sharded key/value services).
pub mod Annotate
pub mod Base
pub mod Clients
pub mod Group
pub mod KvSrv
pub mod KvTest
pub mod Mr
pub mod ShardCfg
pub mod LabRpc
pub mod RaftTest
pub mod Demux
pub mod Persister
pub mod Labgob
