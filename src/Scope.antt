-- ===== src/Scope.antt =====
-- cloud/scope: what a reconcile works on. A scope's setters are functions on the object.
pub mod ProviderId
pub mod Bootstrap
pub mod Cluster
pub mod Machine
pub mod BareMetal
