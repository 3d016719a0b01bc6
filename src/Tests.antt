-- ===== src/Tests.antt =====
-- Concrete inputs for the theorems: a store that keeps its laws, a signer, and runs of each component.
mod Memory
mod Keys
mod Nodes
mod Services
mod Clients
mod Hosts
mod Events
mod Signatures
mod States
mod Listings
mod Starts
mod Announcements
mod Contention
mod Commands
mod Restarts
mod Trust
mod Logs
mod Observations
mod Ranges
mod Refusals
