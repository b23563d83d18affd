-- ===== src/Rules/Gcp.antt =====
-- pkg/rules/gcp: the rules on Google Cloud's resources.
pub mod DetachedDisk
pub mod UnusedReservedIp
pub mod OldSnapshot
pub mod OldMachineImage
pub mod UnusedCustomImage
pub mod NoLifecyclePolicy
pub mod Shape
pub mod UnderutilizedInstance
