-- ===== src/Tests.antt =====
-- Runs of the definitions on concrete inputs, and the theorems at such inputs.
mod Backends
mod Cluster
mod Queries
mod Reconcilers
mod Tenants
mod Clients
mod Endpoint
mod Shards
mod Tools
mod Registrations
