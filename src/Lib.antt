-- ===== src/Lib.antt =====
-- Verification library for the approximate weighted matchings of source/ and implementation/.
--
-- The program reads an edge list, builds an adjacency array from it, and runs one of five classes
-- on it. The suitor classes let each node propose along its heaviest edge that no better suitor
-- holds; the one that is dislodged proposes again. The dominant classes match two nodes as soon as
-- each is the other's heaviest neighbour that is left. The files:
--
--   Base                  names that all modules share; arrays as functions, with sums
--   EdgeList              implementation/edge_list2.hpp: Edge, operator <, readEdges
--   EdgeList.Sort         std::sort, as an insertion sort with that order
--   EdgeList.Read, Drawn  what readEdges returns
--   EdgeList.Weighted     external/edge_list.hpp: readEdges of a file with weights
--   Graph                 what the algorithms read of a graph: num_nodes and the arcs of each node
--   AdjacencyArray        implementation/graph_adj_array.hpp: constructor and accessors
--   AdjacencyArray2       implementation/graph2_adj_array.hpp: the same with heads_, null_edge()
--   Scan                  the inner loop that all suitor classes run over the edges of a node
--   Split                 the ranges of nodes that the parallel procedures give to threads
--   Suitor.Protocol       the tables suitor and ws, a proposal, and what proposals keep
--   Suitor.Outcome        matchings, dominance, and the half of any matching's weight
--   Suitor.Threads        threads that propose in turns, whatever else they do
--   Graph.Usable, Free    the graph of some of the edges; of those between unmatched nodes
--   Graph.Skipped         the inner loop on such a graph
--   Suitor.Sequential     source/sequential_suitor.cpp; procedure2 in Second, procedure3 and
--                         improved_procedure in Improved
--   Heavy                 what improved_procedure does with two matchings in both sequential
--                         classes: the walks along paths and cycles, and the counter edges
--   Suitor.Parallel       source/parallel_suitor.cpp: process, procedure; the class and its public
--                         operations in Instance, its union-find in UnionFind, process2 and
--                         process3 in Improved, how path_discovery chooses an end in Paths
--   Suitor.LockFree       source/parallel_free_suitor.cpp, compare_exchange_strong included
--   LocalQueue            implementation/local_queue.hpp, and the list it stands for
--   Dominant              source/sequential_dominant.cpp: processVertex, processVertex2, procedure
--   Dominant.Instance     the class and its public operations; improved_procedure in
--                         Dominant.Improved
--   ParallelDominant      source/parallel_dominant.cpp: the two sections of phase 1; phase 2 in
--                         Phase2, the public operations in Instance
--   Pipeline              from the pairs of a file to a matching
--   Examples              concrete graphs and runs
--
-- How the code is written here:
--   * A weight is a natural number: the weights of a graph in units so small that all of them are
--     whole. What the code does with weights other than comparing them is a parameter: the sum
--     and the division of doubles in matching_quality, and the sums W of improved_procedure, which
--     may round. The theorems on total weight are about exact sums; where the code chooses by W
--     they say so as a condition. Each sum counts an edge at both of its ends.
--   * NodeHandles and EdgeIterators are the indices that they stand at. null_node() is num_nodes
--     and null_edge() is num_edges, so that nodeId(null_node()) is no node. In the code this is a
--     difference of iterators into two vectors.
--   * An array is a function of its index, and a store is an update of the function. The code
--     indexes its arrays with nodes and edges, but for phase 2 of the parallel dominant class, where
--     a thread can come to use null_node(): in the model it then takes no more steps.
--   * std::ifstream is the list of pairs of numbers that it yields, and the random weights are a
--     function of the number of the draw.
--   * Parallel code is a list of threads' turns. A turn of the lock-free class ends at its next
--     access of suitor; a turn of the class with locks is one edge of the scan, or one critical
--     section, which no other thread enters for the same partner. A turn of the parallel dominant
--     class is one node in phase 1, where no thread reads what another writes, and in phase 2 one
--     access of a queue, or one read or write of mate or candidate. Memory is sequentially
--     consistent.
--   * moodycamel::ConcurrentQueue is a parameter, with the laws of a queue that loses and doubles
--     nothing. A try_dequeue that fails while size_approx is not 0 has no result; the code would
--     enqueue an unset handle.
--   * The while loop of the sequential procedure has fuel for each node; `enough` is one more
--     than the number of nodes times the largest weight, since every round that is not the last
--     raises an entry of ws. Parallel runs have the length of the order of turns. The loop over
--     the queue has one turn of fuel more than there are nodes, since each node is queued once.
--     A walk of the heavy matching visits each node once, so that as many steps as there are
--     nodes suffice.
--   * In improved_procedure, M[counter] and W[counter] are written once and read at the next two
--     values of counter only, so a walk keeps the last two choices. Both classes store the valid
--     path in one table with a weight at each entry; the dominant class, which has no array of
--     weights there, keeps only the mates.
--
-- Not modelled: of the parallel suitor the second half of path_discovery, find_cycle and work_cycle,
-- and with them its improved_procedure after the first two runs; how concurrent calls of
-- find_representative interleave; and the main functions, which only parse arguments, take times and
-- print.
pub mod Base
pub mod EdgeList
pub mod Graph
pub mod AdjacencyArray
pub mod AdjacencyArray2
pub mod Scan
pub mod Split
pub mod Suitor
pub mod LocalQueue
pub mod Heavy
pub mod Dominant
pub mod ParallelDominant
pub mod Pipeline
pub mod Examples
