-- ===== src/Tests.antt =====
-- Concrete inputs at which the theorems apply.
mod Sample
mod Machines
mod Listings
mod Values
mod Servers
mod Documents
mod Balancers
mod Accounts
mod Keeping
mod ServerAccounts
mod Ends
