-- ===== src/Rules.antt =====
-- pkg/rules: the rules' evaluation skeleton, their registry and the engine that runs them.
pub mod Types
pub mod Adapt
pub mod Guarded
pub mod Justified
pub mod Accounting
pub mod Registry
pub mod Coverage
pub mod Native
pub mod Toolbox
pub mod Evidence
pub mod Passing
pub mod Contract
pub mod Gcp
pub mod Aws
pub mod Azure
pub mod Order
pub mod Engine
pub mod Blocks
pub mod Schedule
pub mod Completion
pub mod Skips
pub mod Resort
pub mod Totals
pub mod Selection
pub mod Flags
pub mod Listing
pub mod Blocked
mod Examples
mod Interleaving
mod Samples
mod CloudExamples
