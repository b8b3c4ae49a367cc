-- ===== src/Lib.antt =====
-- magpieDB, an embedded vector database in Go: a page file that is mapped into memory, a
-- multi-version concurrency manager with optimistic transactions on top of it, metadata filters,
-- and a similarity index.
--
-- The parts and their files, with the paths of the code from the repository's root:
--   Common        Booleans, strings as lists of bytes, lists, `Error` (types.go and the errors that
--                 the functions make with fmt.Errorf) and `Result`: a value, an error, or a panic.
--   Dict          Go maps as association lists, with one entry for each key.
--   Bytes         Byte buffers: copy, slices, little-endian integers.
--   Filter        filter.go and the filters of types.go: `matches` is the `Match` methods.
--   Page          page.go and the page structs of types.go: page headers, vector entries, vectors,
--                 IDs, page checksums; Page/DbHeader is the database header in the first page.
--   Storage       storage.go: `Storage` is the struct of that name, with the content of the file
--                 for the mapping. It uses Page for the bytes of vector pages.
--   Cache         cache.go: `QueryCache` is the struct of that name. The eviction loop runs on
--                 fuel: one round makes room in a full cache, so that 2 is enough.
--   Wal           wal.go: `Wal` is the struct WAL with the content of its file. The reading loops run
--                 on fuel, and give no result out of fuel: a round but the last takes at least 5 bytes
--                 off the file, so that one round more than its length is enough.
--                 Wal/Entry is one entry as bytes, Wal/Frames, Wal/Cut and Wal/Torn are files of
--                 entries, Wal/Log, Wal/Append and Wal/Replay the log as the list of its entries.
--   Packing       page_packing.go: pages of several vectors, with Page for their parts. Packing/Layout
--                 is the bytes of a page, Packing/Unpack one page, Packing/Pages all of them.
--   Versions      storage_mvcc.go: `VersionStore` is MVCCStorage. Versions/Store has its operations on
--                 one chain, Versions/Sweep those on all chains, Versions/Stored, Versions/Kept and
--                 Versions/Swept are about them. It uses Storage for the pages.
--   Mvcc          mvcc.go: `Manager`, `Transaction` and `Version` are MVCCManager, MVCCTransaction
--                 and MVCCVersion; each function is one atomic access or one critical section of the
--                 manager's lock, but for begin_tx and commit_tx, which are made of such functions.
--                 Mvcc/Steps is the goroutines that use a manager: `Step` is one atomic step of one.
--   Transaction   transaction.go on its MVCC path, and TxManager.Begin of mvcc.go. It uses Mvcc,
--                 and the rest of the database through the interface `Nest`.
--   Index         index.go and hnsw.go: `Index`, `Node` and `SearchResult` are HSNWIndex, HSNWNode
--                 and SearchResult. Index/Codec is Serialize and Deserialize; Index/Graph/Search
--                 is searchLayer and Search, whose loop recurs on the visits that are left to
--                 visitThreshold, Index/Graph/Insert is Add and insertNode, Index/Graph/Remove is
--                 Remove and OptimizeIndex, Index/Graph/Health is Diagnostics and Stats.
--   Persist       persistIndex of storage.go and loadIndex of recovery.go, over Storage and Index.
--                 The reading loop runs on fuel, as a cyclic chain of pages never ends: as many
--                 rounds as there are pages are enough.
--   Vectors       storeVector, loadVector and their helpers in magpie.go, over Storage: `VectorNest` is
--                 the part of Nest that they use. Vectors/Metadata and Vectors/Single read back what
--                 they write. `validate_options` is validateOptions.
--   Recovery      applyWALEntry and the loop of replayWAL in recovery.go, over Index, Vectors and Wal:
--                 `RecoveryNest` is the part of Nest that they use.
--   Workers       the worker pool of workers.go as a step relation: `Pool` is WorkerPool with its
--                 goroutines and the calls that are under way, `Step` is one critical section or one
--                 channel operation of any of them.
-- The module Tests of a component applies its definitions and theorems at concrete values;
-- Common/Tests holds the comparisons of numbers and strings.
--
-- Numbers are natural numbers. Identifiers and offsets of 64 bits keep their wrap-around written
-- out where the code computes them; a float32 is its 32-bit pattern. A nil pointer, slice or map
-- is `none` where the code tells it apart. Loops over slices are recursion on the list. Maps
-- are walked in the order of their association list.
--
-- Parameters stand for code that is not in the repository: `crc32` and `crc64` for hash/crc32
-- and hash/crc64, of which the theorems use only that the sums fit their width; `GoLib` for
-- floating-point comparison and package regexp; `resize` for the effect of os.File.Truncate,
-- with the record `IsResize`; `Calls` and `WalCalls` for which system calls succeed; `WalLib`
-- for encoding/json and crc32 as the log and the version pages use them; `sort` for sort.Slice;
-- `HeapLib` for container/heap, with the record `IsHeapLib`; `Geometry` for the distance function
-- and float32 comparison, with the record `IsOrdered` for the order of the values that are not NaN.
-- `Nest` stands for the log, the version pages and the index as a commit calls them.
--
-- Not modelled: the database object and its queries (magpie.go) but for Vectors, the rest of
-- recovery.go but for loadIndex (Persist) and the replay (Recovery), the distance functions
-- (distance.go), which are floating-point arithmetic, the metrics, buffer pools, compaction,
-- backups, the tasks and timers of workers.go, and the commands.
-- Locks are not modelled: an operation that holds one lock is one function, and one step of the
-- worker pool and of the goroutines of Mvcc/Steps. Cache.get is one step, although the code moves
-- the element of the list under the read lock, and Transaction takes begin_tx and commit_tx as a
-- whole. The fallback path of transaction.go for a transaction without a manager is not
-- modelled either.
pub mod Common
pub mod Dict
pub mod Bytes
pub mod Filter
pub mod Index
pub mod Page
pub mod Storage
pub mod Cache
pub mod Wal
pub mod Packing
pub mod Versions
pub mod Mvcc
pub mod Transaction
pub mod Persist
pub mod Vectors
pub mod Recovery
pub mod Workers
