-- ===== src/Walk.antt =====
-- include/parsers, include/parser_util/NamedDeclParser.h and include/main_util: walks through the
-- statements of a function, and the collection of pairs from the annotations that the symbolic
-- checkers share.
pub mod Tree
pub mod Names
pub mod Mask
pub mod NamedDecls
pub mod Reached
pub mod Steps
pub mod Collected
pub mod Placement
pub mod Order
pub mod Main
pub mod Annotations
pub mod Placed
pub mod Tracked
pub mod TrackMap
pub mod Finalized
mod Tests
mod Examples
mod Sample
mod MainTests
