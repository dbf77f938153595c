-- ===== src/Lib.antt =====
-- A model of mousedb, a key-value store in C++: the parts of it that compute.
--
-- The filters (mousedb/src/filter.cpp) answer whether an item may have been inserted. The arena
-- (mousedb/src/arena.cpp) hands out memory. The memtable (mousedb/src/memtable.cpp) keeps entries
-- in memory of the arena, with lengths written as varints. Random (mousedb/src/random.cpp) gives
-- each thread a generator. The program of mousedb/src/main.cpp fills the filters and measures
-- them.
--
-- - Base: the library's names, lists, bits and words. A `uint64_t` or `size_t` is a natural number
--   below 2 ^ 64, with the wrap-around of each operation that can have one written out.
-- - Random: `Random`, with `instance`, `next32` and `next64`. The hash of the thread's id that
--   seeds an instance is an argument, and so are the two orders in which C++ may evaluate the
--   draws of `next64`.
-- - Varint: `get_varint_size`, `encode_varint` and `decode_varint` of memtable.cpp, over the bytes
--   of a span; a write or a read behind its end gives `none`. The loop of the encoder runs on
--   fuel, of 9 further rounds: each takes 7 bits off the value, which has 64.
-- - Filter/Run: how a call ends: with a result, with an exception, or in undefined behaviour,
--   which is a result of its own and not left out.
-- - Filter/Hasher: fingerprints and bucket indices. `std::hash` and the random engine belong to
--   the C++ library. They are records of operations with the ranges of their results as laws.
-- - Filter/Bloom: `BloomFilter`, with the constructor, `insert`, `contains`, its hashes and an
--   insertion loop. Its `boost::dynamic_bitset` is the record of operations and laws in
--   Filter/Bitset, and a position outside it is undefined.
-- - Filter/Slots: the loop over the slots of a bucket, and the sums over all slots by which the
--   filters are described.
-- - Filter/Cuckoo: `CuckooFilter`, with the constructor, `insert` with its evictions, `contains`,
--   `erase` and `size`, and the insertion loop of main.cpp. The rounds of the evictions are the
--   filter's `max_kicks_`, by structural recursion, so that no fuel is chosen. The specification
--   is a bag: the view of a filter counts the slots that can stand for an item.
-- - Filter/Chained: `CuckooMap`, with the constructor, `insert` with its evictions and overflow
--   nodes, `contains`, `erase` and `size`. The source keeps a pointer and the slots of a bucket in
--   one array of bytes; here the slots of all buckets are one list and the chains another. `Node`s
--   are reached from one pointer only, so that a chain is a list. A pointer is 8 bytes; to use that of
--   a bucket through an address which is no multiple of 8 is undefined, so that the pointers of a
--   valid map are all aligned. With the bucket sizes of main.cpp and filter.bench.cpp they are not.
-- - Filter/Stream: `FILE`. A file that is read is the list of the bytes left, one that is written
--   has the bytes so far and how many more it takes; `fwrite` and `fread` count the items. Numbers
--   are stored with the lowest byte first, as on the machines that the program is built for.
-- - Filter/Bloom/File, Filter/Cuckoo/File and Filter/Chained/File: `save`, and the constructors
--   from a file. The messages of the exceptions are left out.
-- - Arena: `Arena`, with an address as a slab's position and an offset; adding to a null pointer
--   gives `none`.
-- - Arena/Concurrent: `ConcurrentArena`. A call is one step, since what it reads and writes of a
--   shard or of the arena it does under their mutexes. What a call meets and cannot choose, its
--   thread's `cpu_id_`, the locks that others hold and the processor, is its `Turn`.
-- - Arena/Concurrent/Threads: the same calls step by step. A thread has a program counter with the
--   local variables that are live; a step is one access to what threads share, and the threads take
--   their steps in any order. Memory is sequentially consistent: the orders that
--   `memory_order_relaxed` adds for the atomic counters are not modelled.
-- - Memtable: `KVStore`, `KVSkipList` and `MemTable`. The bytes of the slabs are a function of slab
--   and offset, of which nothing is known where nothing was written. To read or write outside a slab
--   gives `none`. A pair takes one block of a `ConcurrentArena`. `MemTable` is over a record of
--   operations for the concept `KVMap`, with its laws, which `KVSkipList` fills. The specification
--   is the list of the pairs in the order of their inserts (Memtable/Pairs). `compare` and `hash` of
--   pointers have names of their own, `compare_at` and `hash_at`.
-- - Main: `main` of mousedb/src/main.cpp, with its two workloads. The generators, the distributions
--   and the texts of the numbers are one function that draws an item; the sizes that are computed in
--   floating point, `std::stoull` and the seeds of the filters are arguments. The result is the
--   numbers printed. Whether the part of the map is undefined depends on the items.
-- - FilterBench: the benchmarks of mousedb/src/filter.bench.cpp, over the number of iterations that
--   the benchmark library chooses. The keys are drawn as in Main; the result of a benchmark is the
--   answers that it hands to `DoNotOptimize`. How many items it reports is left out.
-- - MemtableBench: the benchmarks of mousedb/src/memtable.bench.cpp, one insertion for each turn.
-- - ArenaBench: the benchmarks of `Arena` and `ConcurrentArena` in mousedb/src/arena.bench.cpp.
-- - SpinMutex: `SpinMutex` of mousedb/src/spin_mutex.hpp, and any number of threads that use it,
--   as a step relation with one step for each atomic operation. That threads unlock only what they
--   hold is part of the relation.
--
-- The Examples modules run the definitions on small inputs. Not modelled are `erase` of
-- `KVSkipList`, which has no code; `make_zipf` and the floating-point sizes of main.cpp; the logger,
-- the tests, and the benchmarks of `malloc` and `new`, which are input and output or calls of
-- libraries; and mousedb/src/sstable.hpp, which has no code behind it. A `new` that fails for want of
-- memory is not modelled either.
pub mod Base
pub mod Random
pub mod Varint
pub mod Filter
pub mod Arena
pub mod SpinMutex
pub mod Memtable
pub mod Main
pub mod FilterBench
pub mod MemtableBench
pub mod ArenaBench
