-- ===== src/Lib.antt =====
-- pocket-data-mining: high-utility itemset mining within a fixed memory budget. What follows models
-- the parts that hold the data, from the pages on disk up to the utility lists, and the algorithms
-- that search with these lists. Paths below are those of the repository.
--
-- The program's parts and how they interact. A chunk store (src/storage) keeps pages in files, each
-- with a header and a checksum, and compresses them where that pays. A buffer pool
-- (src/buffer_pool) keeps some of the pages in memory within a budget of bytes, and asks an
-- eviction policy which one has to go. A memory guard (src/mining/core/memory_guard.rs) counts the
-- bytes that live outside the pool. The algorithms (src/mining/algorithms) join utility lists
-- (src/mining/components/ul_join.rs), whose bodies go to the pool when they are large, and skip the
-- joins that a structure of co-occurrences (src/mining/components/eucs.rs) rules out.
--
-- Which file models which part:
--   Types.antt                     src/types/*.rs: ItemEntry, RawTransaction, PageMeta, UlEntry,
--                                  UtilityList, with their methods of the same names
--   Types/UtilityBounds.antt       the pruning test against the reporting test
--   Storage/PageLayout.antt        src/storage/page_layout.rs: PageHeader, to_bytes, from_bytes
--   Storage/ChunkStore.antt        the trait ChunkStore, as operations and as a contract
--   Storage/FileChunkStore.antt    src/storage/chunk_store.rs and compression.rs: write_page,
--                                  read_page, delete_page, page_exists, page_byte_size,
--                                  next_page_id
--   Storage/Disk.antt              what the store uses of std::fs, a parameter with its laws
--   Storage/PageHeaderBytes.antt, PageFile.antt, WriteRead.antt, PageIds.antt
--                                  headers, files and pages written and read back, and the ids that
--                                  the store gives out
--   BufferPool/Metrics.antt        src/buffer_pool/metrics.rs
--   BufferPool/Policy.antt         src/buffer_pool/eviction/policy.rs, as operations and a law
--   BufferPool/Policy/Lru.antt     src/buffer_pool/eviction/lru.rs
--   BufferPool/Pool.antt, Pool/Pin.antt
--                                  src/buffer_pool/pool.rs and frame.rs, each function under its
--                                  name; make_room is the loop that evicts until a page fits
--   BufferPool/Pool/View.antt, Coherence.antt, Transparency.antt
--                                  the pages that a client sees, and that they do not change
--   BufferPool/Pool/Residents.antt, Pinned.antt
--                                  pinned pages under evictions
--   BufferPool/Pool/Accounts.antt, Budget.antt
--                                  the byte account and the budget
--   BufferPool/Pool/Rounds.antt, Termination.antt
--                                  what the rounds of make_room keep, and that they end
--   BufferPool/Pool/Steady.antt    what the operations leave alone besides, and how they may fail
--   Mining/MemoryGuard.antt, MemoryGuard/Threads.antt
--                                  src/mining/core/memory_guard.rs, alone and shared by threads
--   Mining/UlJoin.antt             src/mining/components/ul_join.rs: the bytes and the two merges
--   Mining/UlJoin/Bytes.antt, Join.antt, Merge.antt, Sums.antt,
--   Materialize.antt               bytes read back, the join by transaction, the merges against
--                                  it, their sums, and where a joined body goes (with get_body of
--                                  src/mining/algorithms/fhm.rs)
--   Mining/Eucs.antt, Eucs/Pairs.antt, Eucs/Complete.antt
--                                  src/mining/components/eucs.rs and what it prunes
--   Mining/Search.antt             the depth-first search and the tasks that start it, which
--                                  src/mining/algorithms/fhm.rs, hui_miner.rs, tku.rs and their kin
--                                  share: join_all is the loop over j, visit the body of the loop
--                                  over i, task the closure that execute_tasks runs. The bodies, the
--                                  place where results go and the cuts are parameters
--   Mining/Search/Nodes.antt, Reference.antt, Lawful.antt, Refine.antt, Visited.antt, Written.antt,
--   Singles.antt, Tasks.antt       the search in memory, what the parameters promise, and what
--                                  the search writes
--   Mining/Search/Chain.antt, Pruning.antt
--                                  lists that nest, and pruning on them
--   Mining/Algorithms/Lists.antt, Parts.antt, Exact.antt
--                                  the two passes, the cuts and writers, and the runs of
--                                  src/mining/algorithms/hui_miner.rs, hup_miner.rs, mhui_miner.rs,
--                                  fhm.rs, fhm_plus.rs and those that call FHM
--   Mining/Algorithms/PoolBodies.antt, PoolBodies/Lawful.antt
--                                  that join_utility_lists and get_body over the buffer pool are
--                                  the lawful bodies that the search asks for
--   Mining/Algorithms/Results.antt what a run writes
--   Mining/Algorithms/TopK.antt, TopK/Order.antt, Best.antt, Threshold.antt
--                                  src/mining/algorithms/tku.rs, tko.rs and rept.rs: the heap of the
--                                  k best and the search with its threshold
--   Mining/Database.antt           what the transactions alone say of an itemset: its utility, its
--                                  utility list, whether it is of high utility
--   Mining/Database/Entries.antt, Itemsets.antt, Unique.antt
--                                  joins against these lists, and the search against them
--   Mining/Database/Items.antt, Headers.antt, Order.antt, Family.antt, Start.antt
--                                  the lists that src/mining/algorithms/hui_miner.rs and fhm.rs
--                                  start with: whose they are, their order, that they nest
--   Mining/Database/Bounds.antt, Granted.antt, Cooccurrence.antt
--                                  what src/mining/components/eucs.rs rules out in a run of FHM
--   Mining/Database/Filtered.antt, Agreement.antt, Kept.antt, Listed.antt
--                                  what src/preprocessing/twu_filter.rs may drop
--   Mining/Database/SameItems.antt, Subsets.antt, Once.antt, Exactly.antt
--                                  results as sets: each set of high utility once
--   Mining/Database/Mined.antt, Pooled.antt
--                                  whole runs over lawful bodies, and over the buffer pool
--   Mining/TwoPhase.antt, TwoPhase/Bytes.antt, Meet.antt
--                                  of src/mining/algorithms/two_phase.rs the bytes of its lists and
--                                  the loop that intersects two of them
--   Mining/Core/Context.antt, ResultWriter.antt
--                                  src/mining/core/context.rs and result_writer.rs
--   Preprocessing/TwuFilter.antt, TwuFilter/Compute.antt, Order.antt
--                                  src/preprocessing/twu_filter.rs, what its pass computes, and
--                                  the order of its keys
--   Preprocessing/Chunker.antt, Chunker/Ranges.antt, Directory.antt
--                                  src/preprocessing/chunker.rs and what its directory finds
--   Preprocessing/DbReader.antt, DbReader/Fields.antt, Tids.antt
--                                  src/preprocessing/db_reader.rs: lines as read_line gives them,
--                                  their fields and the ids of the transactions
--   Base and its children          Boolean tests, lists, words, bytes, maps, and results with state
--   */Tests.antt, */Fixtures.antt  the same functions at concrete inputs
--
-- How the code is modelled. State is passed explicitly: an operation takes the pool, the store or the
-- guard and returns it with its result, also when it fails. An io::Result is a result with the kind
-- of the error. Words wrap as they do in a release build. An i64 is its 64-bit pattern. A hash map
-- is an association list, whose order stands for the order of iteration. The time that a load
-- takes is an argument, and a float is a value of a type that is a parameter. The crates bitflags,
-- crc32fast and lz4_flex and the file system are parameters with the laws that they document.
--
-- Fuel. The loop of make_room runs on fuel: one round more than the pool has frames. Each round
-- that goes on removes a frame, so the fuel is never used up; see BufferPool/Pool/Termination.antt.
-- The search runs on fuel: as many levels as there are extensions, and each level has fewer; see
-- Mining/Search/Tasks.antt. The reading of a database takes the number of calls
-- of next as its fuel: for a file that ends, as many as there are lines are enough; where read_line
-- fails for ever, no number is; see Preprocessing/DbReader/Tids.antt. All other loops are recursions
-- on lists.
--
-- What is not modelled: the making of a store's root directory (FileChunkStore::new); calls of the pool from several threads at once, and tasks of the algorithms on
-- several threads; the eviction by predicted probabilities and the prefetcher, which compute with
-- floats; the algorithms on projected transactions and on trees, and of Two-Phase all but its lists
-- and their intersection; progress counters other than the number of results; the opening and
-- closing of the output file by a run; experiments, the user interface and the configuration, which
-- are input, output and glue.
pub mod Base
pub mod Types
pub mod Storage
pub mod BufferPool
pub mod Preprocessing
pub mod Mining
