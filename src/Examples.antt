-- ===== src/Examples.antt =====
-- Concrete graphs, runs of the algorithms on them, and the theorems at these inputs.
pub mod Graphs
pub mod SequentialSuitor
pub mod ParallelSuitor
pub mod ParallelInstance
pub mod UnionFind
pub mod Pipeline
pub mod LockFreeSuitor
pub mod SequentialDominant
pub mod HeavyMatching
pub mod Paths
pub mod DominantHeavy
pub mod ParallelDominant
