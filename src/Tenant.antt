-- ===== src/Tenant.antt =====
-- The package tenant/: the executor of query_table/v1, which authorizes as the caller, resolves the
-- table's chain with the provider's authority, and asks the backend; the clients of a caller and of
-- the provider; and the registration of resources.
pub mod Sanitize
pub mod Authorize
pub mod Query
pub mod Clients
pub mod Resolvers
pub mod Shards
pub mod Imports
