-- ===== src/Graph.antt =====
-- pkg/graph: the in-memory resource graph of one scan.
pub mod Node
pub mod Build
pub mod Query
pub mod WellFormed
pub mod Prune
pub mod Freeze
pub mod Sealed
pub mod Arranged
pub mod Reach
pub mod Walk
pub mod Degree
pub mod Metrics
pub mod Snapshot
pub mod Codec
pub mod Load
pub mod Loading
pub mod Counts
pub mod Determinism
pub mod RoundTrip
pub mod TextTrip
pub mod Kinds
pub mod Errors
mod Samples
mod Examples
