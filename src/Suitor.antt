-- ===== src/Suitor.antt =====
-- The suitor algorithms (source/sequential_suitor.cpp, source/parallel_suitor.cpp).
pub mod Protocol
pub mod Outcome
pub mod Sequential
pub mod Threads
pub mod Parallel
pub mod LockFree
