-- ===== src/Lib.antt =====
-- The vector search engine: an approximate nearest neighbour index (HNSW) in C++, in memory, with
-- a C interface for the Go services. This library models the index of include/hnsw.hpp, the C
-- interface of src/hnsw_c.cpp, and of the programs around them the simulation of shards, the loops and
-- checks of the benchmarks, the writers of the stress test and the vector files.
--
-- The parts of the program and their files, from the lowest up:
--   Platform     what is not code of the repository: float and double arithmetic, the logarithm,
--                the generator std::mt19937 with its distribution, and whether __AVX__ is defined,
--                all parameters. IsOrdered says that the comparison of distances is a strict weak
--                order ("distances are ordered"), which holds of floats that are not NaN.
--   Visited      VisitedList (marks of a 16-bit epoch) and VisitedListPool; Visited/Refinement reads
--                a list as the set of the indices that were visited.
--   Heap         std::priority_queue and std::sort with the three orders of the source. A queue is
--                the list in which it comes out; the standard leaves open which of two equals comes
--                first, and here it is the one pushed last.
--   Distance     dotProduct, l2SquaredDistance and cosineDistance, with both preprocessor branches.
--                Distance/Sums reads a branch as a tree of additions.
--   Links        the adjacency storage: linkBlock, linkCount, linkNeighbors, setLinks and the append
--                of connectNewElement, cell by cell in the two arrays of the source.
--   Layer        the body of searchLayer: the queues `results` and `frontier`, `worst`, the visited
--                list and one step of the loop.
--   Neighbors    selectNeighborsHeuristic.
--   Greedy       greedyDescend.
--   Index        the members of hnsw::Index, the constructor, the accessors, the label map, the
--                distance of an element; Index/Invariant says when an index is well formed.
--   Search       searchLayer and search on an index.
--   Insert       addPoint, connectNewElement and randomLevel.
--   Delete       markDeleted and unmarkDeleted.
--   Lifetime     the operations one after another, as a step relation, and the index in order.
--   Threads      several callers of addPoint at once, with markDeleted and unmarkDeleted between, as a
--                step relation on the phases of the threads.
--   Stress       the writers of src/stress.cpp: threads that take numbers from a shared counter and
--                insert the vectors of these numbers, on top of Threads.
--   Bytes        numbers as bytes in memory, the lowest first.
--   Snapshot     Index::save and Index::load: a file is a list of bytes, written and read in the order
--                of the source. Whether the file opens and is written to its end, what it holds, and
--                what a float looks like in memory (`Encoding`) are parameters. load comes to an index,
--                an exception, or `undefined`: the source uses a variable that a failed read left
--                without a value, or writes past the end of an array. Snapshot/Conditions says what a
--                snapshot relies on.
--   CApi         the functions of src/hnsw_c.cpp, their codes and the text of the last error;
--                CApi/Snapshots has hnsw_save, hnsw_load and hnsw_free.
--   Shards       the routing hash of src/shard_sim.cpp, the spreading of the vectors over the shards,
--                the building of their indexes, and the scatter-gather, on the results of the
--                searches of the shards.
--   Recall       the searches through all vectors, bruteForce of src/shard_sim.cpp and of
--                src/benchmark.cpp, and the counts of the answers shared with a search.
--   Programs     the loops and checks of the main functions of src/benchmark.cpp and src/sift_bench.cpp;
--                Programs/Cluster has those of src/shard_sim.cpp, Programs/Agreement compares its one
--                shard with its one index.
--   Vecs         the vector files: readVecs of src/sift_bench.cpp and the writers of
--                make_test_fvecs.cpp.
--   Base, Result the shared helpers on lists and numbers, and a result that may be an exception.
--   Tests        small indexes over natural numbers, with runs, and the theorems at these inputs.
-- An operation takes the index and returns its result with the index afterwards. search and addPoint
-- use searchLayer and greedyDescend, which use Layer and Greedy over the links and distances of the
-- index; addPoint changes the links through connectNewElement alone.
--
-- Bounds and fuel. size_t, uint32_t and uint16_t wrap as in the source where it computes with them.
-- The loops of searchLayer and greedyDescend run on fuel of one more than the capacity; `none` is
-- fuel that ran out. It is enough: a round of searchLayer takes an element from the frontier, which
-- each element enters once, and a round of greedyDescend moves to a strictly nearer element. A
-- read outside an array is undefined in the source and gives a default here. The loops over files
-- and vectors are recursions on the number of rounds.
--
-- Not modelled: the locks of the single nodes and searches that run during insertions (in Threads
-- the linking of one element is one step, elsewhere an operation is one caller's); a failed
-- allocation; rounding (float arithmetic is a parameter); the cast of randomLevel where it is
-- undefined, that is for M = 1, where levelMult_ is infinite (the parameter to_int stands for its
-- result where it is defined); a device that fails in the middle of a file; of the
-- main functions the random data, the clocks with the percentiles of the times, the sums of the
-- printed fractions and the output; the readers of src/stress.cpp, and src/snapshot_race.cpp,
-- which saves during insertions; the Go code.
pub mod Base
pub mod Platform
pub mod Bytes
pub mod Visited
pub mod Heap
pub mod Layer
pub mod Links
pub mod Distance
pub mod Result
pub mod Neighbors
pub mod Greedy
pub mod Index
pub mod Search
pub mod Insert
pub mod Delete
pub mod Snapshot
pub mod Vecs
pub mod Lifetime
pub mod Shards
pub mod Recall
pub mod Threads
pub mod Programs
pub mod Stress
pub mod CApi
pub mod Tests
