-- ===== src/Lib.antt =====
-- dstore stores files on the devices of a private mesh. A file is cut into chunks; each chunk is
-- encrypted, encoded into data and parity shards, uploaded to other devices and kept in a local
-- store, and a small manifest (the stub) takes the file's place. Each device runs an HTTP server
-- over a shard store.
--
-- The parts and their files:
--   Prelude        results with Go's errors, integers of 64 bits, strings as bytes, maps.
--   AtomicFile     internal/atomicfile/atomicfile.go: WriteNew and WriteNewFrom. A directory is a
--                  map from names to contents, and a record says which system calls fail, the
--                  deferred removal of the temporary file included.
--   Digest         Hash of internal/manifest and validateHash of internal/localstore.
--   LocalStore     internal/localstore: PutOwned, Get, DeleteOwned, Usage. An operation is one step
--                  on the directory. LocalStore.Locking has the threads of several processes, the
--                  mutexes and the lock of lock.go, and the operations as their system calls.
--                  The error of a system call may be os.ErrNotExist, which callers test for.
--   Erasure        internal/erasure/erasure.go: NewLayout, Validate, Encode, Decode.
--   CryptoFile     internal/cryptofile/cryptofile.go: Encrypt, EncryptChunk, Decrypt.
--   Manifest       internal/manifest/manifest.go: NewChunked, NewWithLayout, Marshal, Unmarshal.
--   Protocol       internal/protocol/protocol.go: what an agent tells of itself.
--   ShardServer    internal/shardserver/server.go: `handle` is HandlerWithOptions, one request in
--                  one step. It uses LocalStore as the source does.
--                  ShardServer.Refines views it as a content-addressed store.
--   HostPort       the standard library's splitting and joining of hosts and ports.
--   FilePath       what the program uses of path/filepath, pathWithin of internal/dstore/paths.go and
--                  contains of internal/nodeconfig/config.go.
--   NodeConfig     internal/nodeconfig/config.go: Default, Validate, Load, SaveNew, ListenAddr.
--   Peer           internal/peer/discovery.go: Port, Probe, Inspect.
--   Tailnet        internal/peer/peer.go (OnlinePeers, RandomOnlinePeers, WhoIs) and
--                  internal/tailnet/tailnet.go, from the decoded output of the tailscale command.
--   Dstore         internal/dstore/dstore.go: Placement is shardPeers, Transfer is pushShard,
--                  downloadShard and fetchShard, Process and Pipeline are processFile, Restore is
--                  RestoreFile and restoreChunked, Directory is ProcessDirectory and Watch. Walk is
--                  filepath.WalkDir over a tree, and Paths is internal/dstore/paths.go: AddPath and
--                  RestoreDirectory. They call the same process_file and restore_file. Progress
--                  has the run of processFile in which nothing fails, RoundTrip what a restore
--                  gives of a file that was processed, with all shards at hand and with some missing,
--                  and Devices the pipeline over a network that leads to servers of ShardServer.
--   Cli            cmd/dstore: the parsers of main.go; Node is what node.go makes of a configuration,
--                  Commands has the commands that work on files, behind their flags, Run the
--                  dispatch and the other commands of node.go, and Serve has serveAndWatch as a
--                  machine of the caller, the server and the watcher.
--   Tests          concrete runs.
--
-- Parameters stand for code outside the repository: SHA-256 (32 bytes), AES-GCM (opening what was
-- sealed, a tag of 16 bytes), the Reed-Solomon library (any k shards give the rest), the codec of
-- JSON, the network and the mesh (any answers), the random source and the system calls (any faults).
-- Where a theorem needs a law of one of them, or that two pieces of data have different hashes,
-- it says so.
--
-- The loop of processFile runs on fuel, one more than the bytes that it reads: each round but the
-- last reads at least one byte. A round that reads no bytes is the last. The machine's sums that can
-- overflow are kept: TotalShards and the totals of the chunks. The sizes of files in the store are
-- natural numbers, which cannot overflow below 2^63 bytes.
--
-- A watch runs for a list of rounds, each with what the scan meets and what others did to the files
-- before it; the list ends where the context does. A walk goes over a tree that is an argument, as
-- the directories are when they are read.
--
-- Not modelled: the flag package, the printing, printPeerStatus and the sockets of cmd/dstore, the
-- tailscale command itself and net.ParseIP, which are parameters, as is the sort of the standard
-- library; mode bits, the name of the lock's file, and the reasons in texts of errors.
pub mod Prelude
pub mod AtomicFile
pub mod Digest
pub mod HostPort
pub mod FilePath
pub mod LocalStore
pub mod NodeConfig
pub mod Erasure
pub mod CryptoFile
pub mod Manifest
pub mod Protocol
pub mod ShardServer
pub mod Peer
pub mod Tailnet
pub mod Dstore
pub mod Cli
mod Tests
