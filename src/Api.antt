-- ===== src/Api.antt =====
-- api/v1beta2: the custom resources, their defaults, their tags and their conditions.
pub mod Status
pub mod LoadBalancer
pub mod Tags
pub mod Conditions
pub mod Cluster
pub mod Machine
pub mod BareMetal
