-- ===== src/Log.antt =====
-- lib/logchecker: the checker of logging in transactions. A field must be logged before it is
-- written, once, and both inside a transaction.
pub mod Lattice
pub mod Functions
pub mod StmtParser
pub mod Reporter
pub mod Transitions
pub mod GlobalParser
pub mod Analyzer
mod Sample
mod Tests
