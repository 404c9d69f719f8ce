-- ===== src/Lib.antt =====
-- sequins: a cluster of servers of read-only key/value data.
--
-- A version of a db is a set of files of pairs. A key has a partition, by Java's string hash
-- (blocks/hashcode.go); the partitions of a version are shared out over the nodes. A node builds the
-- partitions it is to have into a block store (blocks/block_store.go), of sparkey files which a
-- manifest lists; it makes an ephemeral Zookeeper node for each partition that it has, and reads
-- those that its peers made (partitions.go). Requests hold the version that they read, and an old
-- version is removed once no request holds it (version_mux.go). Builds share a lock that has a
-- number of slots (multilock/multilock.go).
--
-- Prelude and the modules below it are shared: the native numbers, texts as lists of bytes, Go's
-- maps as association lists (a range over a map visits the list in its order), sets as maps whose
-- values are all true, results of calls that may fail, `%05d` and strconv.Atoi on texts of digits.
--
-- Hash models blocks/hashcode.go: `hash_code` is hashCode, `key_partition` is KeyPartition, and
-- `alternate_partition` is alternatePathologicalKeyPartition. An int32 is its bit pattern, with
-- every wrap-around written out as `% 2 ^ 32`; an int is signed, so a remainder can be negative, and
-- a partition is the bits of an int.
--
-- Blocks models the package blocks. Blocks.Block has block.go and block_writer.go, Blocks.Manifest
-- has manifest.go, and Blocks.Store has block_store.go; a method keeps its name, with the type
-- before it where two types share it (`block_get` is Block.Get, `writer_add` is blockWriter.add). A
-- method that changes the store and may fail returns the state with the error, so what was changed
-- before the error stays changed. go-sparkey, uuid and the files are the record Sparkey of
-- Blocks.Sparkey: its operations, and their laws as hypotheses; the tests instantiate it.
-- encoding/json is a reader and a writer of manifests with the law that what is written is read
-- back. There the stream of a value is its whole text; Blocks.Record has record.go and iterpool.go,
-- which open records have which iterator, over the iterators of go-sparkey and sync.Pool.
--
-- Mux models version_mux.go. A version is a pointer, its name and an identity. The counter and the
-- timer that an entry points to are kept apart from the entry, which the source copies. What a
-- method does between taking the lock and giving it back is one step; `remove` is four steps
-- (`remove_claim`, `remove_arm`, `remove_delete`, `remove_may_return`). Times are left out: a reset
-- of a timer is counted.
--
-- Db models db.go: a method is a step, and so is what a goroutine does between two waits. The
-- versions that wait to be ready, those that are to be removed and those that the mux is about to
-- delete are lists of the state. newVersion and whether a version is ready at once are parameters.
-- Db.Shutdown has close and the end of removeVersion, with the channels that are closed, and
-- Db.Cleaning has cleanupStore.
-- Build models build.go below `build`: which records of a file are added to the block store, with
-- the sequence file's reader as a parameter.
--
-- Version models version.go, and `build` of build.go: a version as the node makes it, with the store
-- that was saved or an empty one, builds it and closes it. `serving` is the version as the handlers
-- of Serve ask it. What `build` does while it has its three locks is one step.
--
-- Backend models backend/: Local, Hdfs and S3 list the versions and the files of a db over the
-- clients of the file system, of HDFS and of S3, which are parameters.
--
-- Server models sequins.go: which db and key a request is for, and the dbs after a refresh. Config
-- models validateConfig of config.go, with url.Parse as a parameter, and the timeout that
-- initCluster calculates; Config.Loading has defaultConfig and loadConfig, over the decoder of toml.
-- A duration is signed. Main models main.go up to the choice of the backend:
-- the flags, and the configuration that they override.
--
-- Watcher models zk_watcher.go: the ephemeral nodes and the watches of a connection to Zookeeper.
-- The calls of gozk are the record Zookeeper; Watcher.Restoring.Calm holds what is promised of a
-- Zookeeper that nobody else changes meanwhile. A loop of retries has as its fuel the tries that are
-- left. Watcher.Cleanup has the walk that deletes empty nodes, cleanupTree, over the record ZkTree of
-- the two calls that it makes; Alone holds what is promised of them. Watcher.Watches has run, as
-- steps over the number of goroutines that each watched node has; a close of the watcher is one of them.
--
-- Debug models debug.go: the statistics of one second after another, the size of the local store,
-- and which requests are tracked. A turn of updateRequestStats is a step; an int64 that counts for
-- one second is a natural number.
--
-- Peers models peers.go: the listing of the peers and the choice of those that have a partition; the
-- ring is a function of the set of its shards. Peers.Converging has the wait for the listing to settle.
-- Status models status.go: what the nodes tell of their
-- versions, merged, and the states of a version.
--
-- Partitions models partitions.go. The hash ring of the peers is a function, and the watcher is the
-- set of the ephemeral nodes that it keeps in Zookeeper; a panic is `none`. Multilock models
-- multilock/multilock.go; a call that would block is `none`. Proxy models proxy.go: `proxy_loop`
-- goes over the events that the select receives, and ends with them if the loop still waits; `none`
-- is an event that cannot happen, the answer of a peer that owes none. Serve models serve.go: a
-- version is the record `Serving` of what the handlers ask of its partitions, its block store and
-- the proxy.
--
-- Every loop is a recursion over the list or the number it counts. The digits of a number have as
-- their fuel its successor, and Prelude.Decimal shows that the digits are read back; the walk of a
-- tree of Zookeeper has as its fuel a bound of the height of the tree.
--
-- Not modelled: the clients that main.go makes, and the start and the end of the process in
-- sequins.go; the server of debug.go and its handlers; and of zk_watcher.go the connection and
-- what a watch's goroutine sends through its channels.
pub mod Prelude
pub mod Hash
pub mod Blocks
pub mod Mux
pub mod Db
pub mod Debug
pub mod Build
pub mod Backend
pub mod Config
pub mod Main
pub mod Multilock
pub mod Partitions
pub mod Peers
pub mod Proxy
pub mod Serve
pub mod Server
pub mod Status
pub mod Version
pub mod Watcher
