-- ===== src/Pricing.antt =====
-- pkg/pricing: the regions under which prices are kept, and the price of a machine.
pub mod Region
pub mod Cost
pub mod ManagedDisk
pub mod DiskTiers
pub mod Provenance
pub mod Parts
pub mod Cut
mod Examples
