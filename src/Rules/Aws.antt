-- ===== src/Rules/Aws.antt =====
-- pkg/rules/aws: the rules on the resources of Amazon Web Services.
pub mod UnattachedEbsVolume
pub mod UnassociatedEip
pub mod UnusedAmi
pub mod OrphanedAmiSnapshot
