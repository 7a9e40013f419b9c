-- ===== src/Symbolic.antt =====
-- What the two path-sensitive checkers share: the calls that a callback makes of clang's engine
-- (include/util/Graph.h), the facts about values, memory regions, symbols and declarations that
-- they ask clang for, and the lookups of include/util/Helper.h over these.
pub mod Engine
pub mod Memory
pub mod Decls
pub mod Regions
pub mod Lookups
pub mod Sample
mod Tests
