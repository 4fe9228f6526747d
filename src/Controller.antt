-- ===== src/Controller.antt =====
-- internal/controller: the reconciliation of one Service against the cluster and the provider.
pub mod Filter
pub mod Reconcile
pub mod Laws
pub mod Inversion
pub mod Assigning
pub mod Reads
pub mod Sharing
pub mod Isolation
pub mod Sweep
pub mod Deleting
pub mod Returning
mod Tests
