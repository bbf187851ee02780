-- ===== src/Lib.antt =====
-- ZadoDB: an embedded object store with a write-ahead log, copy-on-write B+tree snapshots and per-class
-- ids.
--
-- A write is marshalled to a log entry (internal/storage/wal/record.go) and handed to the sequencer
-- (internal/storage/wal/sequencer.go), which gives it a transaction id, frames it into the log file
-- (internal/storage/wal/writer.go) and answers when it is durable. The engine
-- (internal/storage/engine.go) then puts it into an in-memory overlay. Reads look into the overlay and
-- then into a snapshot: a B+tree (internal/storage/btree) over a file of 4096-byte pages
-- (internal/storage/page). A boot (internal/storage/recovery) reads the log back up to the first
-- damaged record, truncates it there and rebuilds the overlay; a checkpoint
-- (internal/storage/checkpoint) folds a retired log into a new tree.
--
-- Files:
-- Prelude and its children: names passed on from the libraries, Boolean tests, lists over the native
-- numbers, finite maps with an equality test as an instance, the int of the paging parameters.
-- Bytes: byte strings, bytes.Compare (internal/storage/btree/node.go compareBytes), little- and
-- big-endian integers (encoding/binary). Bytes/Order, Bytes/Endian and Bytes/Sorted hold their lemmas,
-- Bytes/Decimal decimal texts.
-- Errors: error values of the page and tree code.
-- Wal: entries, keys (internal/storage/wal/record.go); Wal/Keys the key lemmas; Wal/Log the file of
-- records (internal/storage/wal/writer.go, reader.go), with Wal/Log/Frames for one record,
-- Wal/Log/Crash for a log cut by a crash and Wal/Log/Total for any file; Wal/Sequencer a round of the
-- sequencer's run loop, Wal/Calls its goroutines and their callers interleaved
-- (internal/storage/wal/sequencer.go), with Wal/Calls/Sound and Wal/Calls/Closing; Wal/Fsync the fsync
-- modes (internal/storage/wal/fsyncmode.go); Wal/Codec what is asked of msgpack.
-- Page: the header and body of a page (internal/storage/page/page.go), with Page/Fields and
-- Page/Contents; Page/Pager the page file (internal/storage/page/pager.go), with Page/Pager/Laws and
-- Page/Pager/MetaPage.
-- Btree: nodes, search and splits (internal/storage/btree/node.go, internal/storage/btree/split.go);
-- Btree/Encode nodes as pages and Btree/Overflow long values (internal/storage/btree/encode.go), each
-- with RoundTrip; Btree/Store the interface PageStore and its laws, which Btree/Store/OnFile fills by
-- the page file, and Btree/Store/MetaWrite its meta page; Btree/Lookup Get and Scan, with Shape for
-- what a tree over sorted entries is, Found for Get, Scanned and Prefix for Scan, and Keeps for a store
-- that grows; Btree/Tree Insert and Delete (internal/storage/btree/btree.go), with CopyOnWrite;
-- Btree/Build the bulk builder (internal/storage/btree/build.go), with Levels, Raised, Loaded and Added
-- for its steps, Table for a tree that holds given pairs, and Found and Scanned for what is read from
-- it.
-- Idgen: the id counters (internal/storage/idgen/idgen.go).
-- Engine: state and methods of the store (internal/storage/engine.go), Engine/Query the listing and
-- DropClass, Engine/Admin the lists of projects and classes, Engine/Prune the pruning of the overlay;
-- Engine/View, Engine/Objects and Engine/ReadBack what clients read after a write; Engine/Answered how
-- the log answers a single payload.
-- Recovery: replay and truncation of the log (internal/storage/recovery/recovery.go) and the boot of
-- the engine; Recovery/Boot a log after a crash; Recovery/Recover its Recover on the directory,
-- Recovery/Durable what a directory holds, Recovery/Resumed the replay at the end of a boot,
-- Recovery/Restart and Recovery/Fresh a boot of one that holds a database and of one that does not;
-- Recovery/Appended and Recovery/Running the batches that a sequencer appends to the log of a
-- directory.
-- Database: Open of the engine on a directory (internal/storage/engine.go), Database/Opened the engine
-- that it starts and Database/Acknowledged a write through submit and the files on disk,
-- Database/Methods the same for the object methods, Database/Checkpointed a checkpoint of the engine.
-- Apply: a log entry applied to a tree (internal/storage/apply/apply.go).
-- Config: the settings of the server (internal/server/config/config.go).
-- Http: requests, responses, stored objects and the middleware (internal/server/http/dto.go,
-- internal/server/http/middleware.go); Http/Filters the filters of a listing
-- (internal/server/http/filters.go), with Http/Filters/Expressions for what is asked of regexp and
-- Http/Filters/Like for LIKE; Http/Classes and Http/Objects the handlers
-- (internal/server/http/handlers_class.go, internal/server/http/handlers_object.go), Http/Routes the
-- routes (internal/server/http/server.go); Http/Served, Http/Refused, Http/Null and Http/Reads what
-- clients get and what stays.
-- Layout: the files of the database directory (internal/storage/layout/layout.go), with Layout/Names
-- for the names of data files and the text of CURRENT.
-- Checkpoint: the deltas of a retired log and their merge with the base
-- (internal/storage/checkpoint/checkpoint.go), with Merge, Ordered, Deltas and Built for the result;
-- Checkpoint/Generation its BuildGeneration and Run on the directory, Checkpoint/DataFile the file that
-- they make and Checkpoint/CrashSafe a crash at any step.
-- Mvcc: the atomic steps of Acquire, Release and SwapTo (internal/storage/mvcc/snapshot.go), with
-- Mvcc/Current and Mvcc/Race; Mvcc/Reads the reads of a mapped data file.
-- Examples: concrete parameters and data, and an example of each theorem.
--
-- Conventions. A byte is a native number; byte strings are lists of them. A uint64 is a number below
-- 2^64 and wraps where the source can wrap, but transaction ids are counted without a bound and
-- theorems that need it ask for ids below 2^64, and page offsets do not wrap except in
-- write_page_int64, read_page_int64 and Mvcc/Reads; an int64 is its bit pattern, or an integer where
-- its sign matters (Prelude/Int); generation numbers and the names of snapshots do not wrap. A function
-- that can fail returns Option, Result or Outcome. State is passed explicitly. A parameter stands for
-- what is not in the repository: hash/crc32 (Wal/Log.Crc), msgpack (Wal/Codec.Codec, and with
-- encoding/json Http.Formats), texts, numbers and regular expressions in the filters
-- (Http/Filters.Texts, Http/Filters/Expressions.Regexps) and YAML (an argument of Config.load_config).
-- Mutexes make each modelled method one step. A crash falls between two steps on the directory or
-- within a write to the log or to a temporary file; a file that was synced, and a rename, are durable.
--
-- Fuel. The descent of a tree takes one round per level and the theorems ask for more rounds than the
-- tree is high; an overflow chain takes one round per page and one more; the reader's loop takes the
-- file's length plus one, since every record takes at least 24 bytes. Recover and Run take the fuel of
-- their tree reads as an argument: more rounds than the generation has pairs are enough, since a
-- bulk-loaded tree is no higher than its pairs are many.
--
-- Not modelled: I/O errors of the file system, the clock and the ticker that starts checkpoints, the
-- statistics, the memory map and the closing of snapshots, the routing and the listener of net/http,
-- the daemon, the command line and the test tools.
pub mod Prelude
pub mod Bytes
pub mod Errors
pub mod Wal
pub mod Page
pub mod Btree
pub mod Idgen
pub mod Engine
pub mod Recovery
pub mod Layout
pub mod Mvcc
pub mod Checkpoint
pub mod Apply
pub mod Config
pub mod Database
pub mod Http
pub mod Examples
