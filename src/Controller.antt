-- ===== src/Controller.antt =====
-- internal/controller: the reconciler of ChatUIInstance objects.
pub mod Objects
pub mod Pods
pub mod Effects
pub mod Setup
pub mod Policies
pub mod Routes
pub mod Slug
pub mod Denials
pub mod Sessions
pub mod History
pub mod Access
pub mod Services
pub mod Ingresses
pub mod Probing
pub mod Readiness
pub mod Cutover
pub mod Workload
pub mod Checksum
pub mod Watch
pub mod Reconcile
mod Samples
mod Examples
