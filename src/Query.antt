-- ===== src/Query.antt =====
-- queryapi/query.go: identifiers, the input contract of query_table/v1, the SQL that it runs and
-- the bounds on its results.
pub mod Errors
pub mod Identifier
pub mod Request
pub mod Sql
pub mod Targets
pub mod Outcome
