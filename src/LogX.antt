-- ===== src/LogX.antt =====
-- lib/logxchecker: the path-sensitive log checker. Its callbacks run at the nodes of clang's
-- exploded graph, on a program state with the log state of each field and a transaction counter.
pub mod Identify
pub mod Functions
pub mod State
pub mod Checker
pub mod Modes
pub mod Performs
pub mod Paths
pub mod Actions
mod Tests
