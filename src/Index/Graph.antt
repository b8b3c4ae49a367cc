-- ===== src/Index/Graph.antt =====
-- The operations on the graph of the index: the greedy search, insertion, removal, and maintenance.
pub mod Search
pub mod Insert
pub mod Remove
pub mod Links
pub mod Best
pub mod Invariant
pub mod Built
pub mod Keys
pub mod Sort
pub mod Health
pub mod Found
pub mod Results
