-- ===== src/Services.antt =====
-- cloud/services: the operations on Vultr resources.
pub mod Keeps
pub mod Account
pub mod Paging
pub mod Base64
pub mod CloudConfig
pub mod SshKeys
pub mod LoadBalancer
pub mod Instance
pub mod BareMetal
