-- ===== src/Flushed.antt =====
-- lib/flushedchecker: the checker of persistent pointers. What a pointer holds must be flushed and
-- fenced before it is written into a field that persists.
pub mod Lattice
pub mod Variables
pub mod StmtParser
pub mod Reporter
pub mod Transitions
pub mod GlobalParser
pub mod Analyzer
mod Tests
