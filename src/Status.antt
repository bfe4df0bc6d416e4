-- ===== src/Status.antt =====
-- pkg/status: the mirror of the records as objects of a Kubernetes namespace.
pub mod Names
pub mod Syncer
pub mod Queue
pub mod Client
pub mod Examples
