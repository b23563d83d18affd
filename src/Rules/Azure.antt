-- ===== src/Rules/Azure.antt =====
-- pkg/rules/azure: the rules on the resources of Microsoft Azure.
pub mod UnattachedManagedDisk
pub mod UnassociatedPublicIp
