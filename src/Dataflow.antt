-- ===== src/Dataflow.antt =====
-- include/dataflow_util and include/analysis_util: the dataflow analysis over blocks and contexts,
-- for any checker.
pub mod Location
pub mod Manager
pub mod Merge
pub mod Contexts
pub mod Store
pub mod Analysis
pub mod Driver
pub mod ListMaps
