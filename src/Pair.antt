-- ===== src/Pair.antt =====
-- lib/pairchecker: the checker of pairs of persistent fields. A write of one field of a pair must
-- be committed, flushed and fenced, before the other one is written.
pub mod Lattice
pub mod Variables
pub mod StmtParser
pub mod Reporter
pub mod Transitions
pub mod GlobalParser
pub mod Analyzer
mod Sample
mod Tests
