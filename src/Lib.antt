-- ===== src/Lib.antt =====
-- The Databricks provider: a Kubernetes provider that imports Databricks tables into a tenant's
-- workspace and answers bounded queries on them.
--
-- The program has three resources, Connection, Warehouse and Table. A controller for each one asks
-- Databricks whether the resource is usable, and writes the answer to its status as conditions for
-- the current generation; a Warehouse rests on its Connection and a Table on both. A query goes
-- through tenant/action.go: guards, the request contract of queryapi/query.go, two authorizations
-- as the caller, the chain Table, Warehouse, Connection, Secret, and then the statement backend,
-- whose result is cut to the bounds of queryapi/query.go. Errors leave through a table of safe
-- codes.
--
-- An action reaches QueryTable over HTTP through actions/actions.go, or as an MCP tool through
-- mcpserver/; tables are registered through tenant/import.go. All act for the caller with clients
-- of tenant/client.go, which caches them per cluster and token; the provider's own clients come
-- from tenant/authority.go, which finds the shard of a cluster in an endpoint slice.
--
-- Prelude     text as a list of code points, Go results, integers, lists, maps
-- Query       queryapi/query.go: identifiers, the request contract, the SQL builder, result bounds;
--             Outcome/Drops is the loop that actions/actions.go and mcpserver/tools.go share
-- Failure     backend/validation_reason.go and the error types of backend/
-- Api         apis/databricks/v1alpha1/types.go
-- Shared      controller/shared/shared.go
-- Controller  the three reconcilers of controller/, one pass each as a function from the cluster to
--             the resource it writes and the time to the next pass
-- Tenant      tenant/action.go: Query is QueryTable, Authorize the two reviews, Sanitize the errors;
--             tenant/client.go: Clients is the factory, its Caching one cache of clients and its Race
--             one call of For beside one of SetBaseConfig, and Resolvers is the table resolver;
--             Shards is tenant/authority.go; Imports is the registration of tenant/import.go, from the
--             headers in its Endpoint to the results, and Factory what ClientFactory gives it
-- Hosts       hostpolicy/hostpolicy.go
-- Imports     the contract of a registration in importapi/importapi.go
-- Backend     backend/backend.go and the validators of backend/validation.go
-- Actions     actions/actions.go: the errors on the wire, and in Paths, Requests and Handler the
--             endpoint itself
-- Mcp         mcpserver/tools.go, and in Server the guards of mcpserver/server.go
-- Tests       runs on concrete inputs
--
-- A string is the list of its code points; a byte that is not part of one is 0x110000 plus the
-- byte. The machine's int is an integer without bound, since each one is compared with small bounds
-- before it is used; the clock of the caches is a uint64 with its wrap. A time is a number of
-- nanoseconds and 0 is Go's zero time; each operation reads it once. A Go error is its message and
-- the chain that errors.As walks. A Go map is an association list. What is not in the repository is
-- a parameter: the API server's client, the condition helpers of apimachinery, json.Marshal as the
-- size of its output, fmt's verb for quoted text, the change of letter case, SHA-256, the
-- constructors of clients, the endpoint slice and the probe of a shard, net and net/url, HTTP as a
-- function from a request to a response, and JSON decoders. A client sees its validators and its
-- query executor as functions, which Backend and Tenant fill. Of the condition helpers one law is
-- assumed, that a condition that was set is the one found; of SHA-256, that a hash has at least 8
-- bytes; of the API server in a registration, that a get returns what is stored, a create that
-- succeeds stores its object, and nobody changes or deletes an object meanwhile. The loop that cuts
-- a result has a fuel of one more than its rows and columns, of which each round drops one; the
-- loop that cuts a list of tables one more than the tables; an eviction the number of records, of
-- which each round forgets one; and the search for a table's summary counts the source's own 100
-- pages down. Operations are one step each, except in Tenant/Clients/Race, where the critical
-- sections of two calls are the steps.
--
-- Not modelled: the discovery of tables to import, the stub validators, the process entry with its
-- controller manager, logging, calls on nil objects, and the portal.
pub mod Prelude
pub mod Query
pub mod Failure
pub mod Hosts
pub mod Imports
pub mod Mcp
pub mod Api
pub mod Shared
pub mod Controller
pub mod Tests
pub mod Tenant
pub mod Backend
pub mod Actions
