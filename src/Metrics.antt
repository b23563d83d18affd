-- ===== src/Metrics.antt =====
-- pkg/metrics: how the samples of a resource become one value of its node.
pub mod Percentile
pub mod Reduce
pub mod Rank
pub mod Measure
pub mod Gcp
pub mod Aws
pub mod Azure
pub mod Bounds
mod Examples
