-- ===== src/Scan.antt =====
-- pkg/cloud/scope.go and internal/config: from flags and environment to the scope of a scan.
pub mod Scopes
pub mod Config
pub mod Scope
pub mod Naming
pub mod Vocabulary
pub mod Provider
pub mod Validate
pub mod Valid
pub mod Accepted
mod Examples
