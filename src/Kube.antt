-- ===== src/Kube.antt =====
-- internal/kube/kube.go: the operations on the cluster, one module for each family.
pub mod External
pub mod Containers
pub mod LastChange
pub mod OptIn
pub mod Mutate
pub mod Resolve
pub mod Owners
pub mod Targets
pub mod Actions
pub mod References
pub mod Images
pub mod Probes
pub mod Resources
pub mod Logs
pub mod Snapshot
pub mod Reads
pub mod Writes
