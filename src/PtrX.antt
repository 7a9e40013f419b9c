-- ===== src/PtrX.antt =====
-- lib/ptrxchecker: the path-sensitive checker of persistent pointers. A symbol is written until it is
-- flushed; a pointer to a written one may not be stored in an annotated field.
pub mod State
pub mod Written
pub mod Taint
pub mod Inversion
pub mod Decided
pub mod Laws
pub mod Protocol
pub mod Walkers
pub mod Checker
pub mod Params
pub mod Binds
pub mod Callbacks
mod Sample
mod Tests
mod CallbackTests
