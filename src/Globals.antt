-- ===== src/Globals.antt =====
-- include/global_util: the sets of functions and variables that a checker collects over a
-- translation unit, and the units (an analysed function with all that it reaches).
pub mod Functions
pub mod Variables
pub mod Units
pub mod Track
