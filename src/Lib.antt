-- ===== src/Lib.antt =====
-- NoeDB, a distributed SQL database engine in Rust: models of its consensus layer, its LSM storage
-- and log, its multi-version storage, its transactions, its SQL expressions and parts of its planner
-- and its engine, and what is proved.
--
-- The program is a workspace of crates: SQL text goes through the lexer, the parser and the planner;
-- the engine executes plans over transactions (noedb-txn) and the LSM storage (noedb-storage), and
-- replicates commands by Raft (noedb-raft).
--
-- Base: the names that all modules share; list operations and Boolean tests over the native numbers;
--   the saturating operations of `u64` and little-endian bytes (Base/Words).
-- Raft: crates/noedb-raft/src. The newtypes over `u64` are numbers, a `&mut self` method is a
--   function from the old node to the new one with the actions that it returns, and where the source
--   splits a handler by early returns the model has a definition for each part.
--   Types, Log, Config, Membership, Rpc, State: types.rs, log.rs, config.rs, membership.rs, rpc.rs,
--     state.rs, and the types and `new` of raft_core.rs.
--   Replication, Commit, Election, Handlers, Machine: the methods of `Raft` in raft_core.rs, from
--     `append_to_peer` up to `tick`, `step` and `propose`, and `RaftNode::dispatch` of node.rs.
--   Storage, Node: `MemStorage` of storage.rs and `RaftNode` of node.rs over it.
--   The children of Commit, Handlers, Machine, Membership and Node hold the proofs. Machine/Events
--   puts the calls that a runtime makes of a node into one type, for theorems about any run.
--   The progress of the peers, a `BTreeMap`, is a function from ids, since the code only looks up,
--   inserts and clears; the set of votes is a list that `insert_vote` keeps free of duplicates.
--   What other crates provide is a record, `Externals`: the numbers drawn by `rand` (a function of
--   the count of timers set so far and of the bounds) and the bytes of `bincode`.
-- Storage: crates/noedb-storage/src outside its mvcc folder. Checksum, MemTable, Wal (wal/entry.rs and
--   wal/mod.rs), Block (sstable/block.rs), Bloom, XorFilter, WriteStall, Compaction, and Lsm (lsm.rs and
--   lsm_mvcc.rs), which puts them together with the keys and the codec of Mvcc. A file of the log is the string of its bytes; a
--   sorted table is the map that it was written from, and its lookup by filter and index a parameter.
--   The two sizes of a Bloom filter, which the source computes in floating point, are arguments.
--   The children of these modules hold the proofs.
-- Mvcc: crates/noedb-storage/src/mvcc. Version (version.rs, oracle.rs), Key (key.rs), Codec (codec.rs),
--   View (read_view.rs) and Table (memtable.rs, gc.rs); the children of Key and Table hold the proofs.
--   A `BTreeMap` keyed by bytes is a list of entries in ascending order (Base/ByteMap), over the
--   lexicographic order of byte strings (Base/Bytes); the panic of `BTreeMap::range` is a value of its
--   own. The iterators of the table and its listings of user keys are not modelled.
-- Txn: crates/noedb-txn/src. Transaction (transaction.rs, error.rs), Ssi (ssi.rs), Deadlock
--   (deadlock.rs), Manager and Commit (manager.rs), and Calls: the calls of all sessions in any order.
--   A `BTreeMap` keyed by ids is a list of entries in ascending order (Base/IdMap). Each call of the
--   manager is one step; what threads do between the locks of one call is not modelled. Instants are
--   numbers of milliseconds that a call is given. The durable hook is a parameter.
-- Sql: Ast (crates/noedb-ast/src: expr.rs, name.rs, and the types of stmt.rs), Token
--   (crates/noedb-lexer/src/token.rs), Parser and Expression (crates/noedb-parser/src: parser.rs,
--   types.rs, expr.rs). The parser works on the tokens left; the end of the list is the token of the
--   end. Spans are left out. The statements of subqueries and the specifications of windows are types
--   of a record, `Parts`, and their parsers of another, `Subparsers`. Expression/Fuel, Ends and Total
--   show that the parser ends; Expression/Chains has a grammar and what the parser makes of it.
-- Planner: crates/noedb-planner/src. SetOps (setops.rs) and Like (`sql_like` of eval.rs), where a string
--   is the list of its characters, a hash set the list of its members, and a value enters by its
--   bytes; Value (value.rs, and the errors of lib.rs), Row, Operators and Eval (eval.rs), Cast and
--   Calendar (cast.rs), where a string is the list of its bytes. The floats, and the functions of the
--   standard library on strings, are a record, `Std`. A panic is an outcome of its own; the messages
--   of errors are left out. The children of these modules hold the proofs.
-- Engine: crates/noedb-engine/src. StmtCache (stmt_cache.rs), whose hash map is a map by keys, and Rls
--   (rls.rs), which uses Sql and, in its proofs, the evaluation of Planner. Of a statement Rls has the
--   table and the `WHERE`.
-- Fuel: a walk of the deadlock search has one step more than there are waits, since each step
--   visits a waiter for the first time. `apply_committed` takes `commit_index - last_applied`
--   rounds, the entries that are left; `try_advance_commit` goes through the indexes of its range,
--   one round each. Reading a log has the length of the file, since each record takes a byte at
--   least; a merge has the number of entries of its files; the xor filter has a round for each
--   doubling of its table up to 2^20. The parser of expressions has one step more than there are
--   tokens, for the depth of its calls and for the rounds of each loop, since each uses up a token.
--
-- Not modelled: the effect of fsync, the manifest and the names of files, sockets and TLS, the random
-- source, checksums of other crates, the wire codec of the Raft transport, and the other crates.
pub mod Base
pub mod Raft
pub mod Planner
pub mod Engine
pub mod Storage
pub mod Sql
pub mod Mvcc
pub mod Txn
