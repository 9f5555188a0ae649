-- ===== src/Controller.antt =====
-- internal/controller: the three reconcilers. A reconciler is an action on its object in memory,
-- the world and the recorded events.
pub mod Reconciler
pub mod Steps
pub mod Cluster
pub mod Machine
pub mod BareMetal
pub mod Entry
pub mod Mapping
pub mod Watches
