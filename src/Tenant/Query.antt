-- ===== src/Tenant/Query.antt =====
-- `QueryTable` of tenant/action.go.
pub mod Access
pub mod Answers
use provider_databricks.Prelude.{
  ℕ, if◌then◌else◌, Bool, true, false, not, ◌&&◌, ◌||◌, List, [], ◌∷◌, Option, none, some, map,
  Text, runes, is_empty, text_eq, trim_space, ℤ, Result, ok, err, ◌>>=◌, ◌>>◌, reject_if,
}
use provider_databricks.Failure.{Failure, Link, plain, validation_error}
use provider_databricks.Failure.Queries.{or_query_failure}
use provider_databricks.Api.{condition_ready, connection_auth_pat, Connection, Warehouse, Table}
use provider_databricks.Shared.{
  ConditionApi, ClusterApi, current_condition_true, resolve_table, resolve_warehouse,
  resolve_connection, resolve_bearer_token,
}
use provider_databricks.Query.Errors.{QueryError, not_in_schema, error_text}
use provider_databricks.Query.Request.{
  action_version_v1, QueryTableRequest, normalize_query_request,
}
use provider_databricks.Query.Targets.{QueryExecutionTarget}
use provider_databricks.Query.Outcome.{QueryTableResult, bound_query_result}
use provider_databricks.Controller.Warehouses.{connection_current}
use provider_databricks.Controller.Tables.{warehouse_current}
use provider_databricks.Tenant.Sanitize.{
  ActionError, code_schema_projection_invalid, sanitize_action_error,
}

pub record QueryInput : Type 0 where
  pub columns : List Text
  pub limit : ℤ

-- `TableAuthorizer`; `none` is a nil error.
pub record TableAuthorizer : Type 0 where
  pub authorize_table : (cluster_id token name : Text) → Option Failure
  pub authorize_table_action : (cluster_id token name action : Text) → Option Failure

-- `ActionExecutor`: whether it has a factory, the caller, the parts that may be nil, and the client
-- with the provider's authority for a cluster.
pub record ActionExecutor : Type 0 where
  pub has_factory : Bool
  pub cluster_id : Text
  pub token : Text
  pub authorizer : Option TableAuthorizer
  pub executor : Option (QueryExecutionTarget → Result Failure QueryTableResult)
  pub authority_client : Text → Result Failure ClusterApi

abbrev pub action_query_name : Text
action_query_name = runes "query_table"

-- `nil` is `ok`.
abbrev pub or_return : Option Failure → Result Failure (Unit {0})
or_return none = ok tt
or_return (some e) = err e

abbrev pub check_authorizer :
    Option TableAuthorizer → (cluster_id token name : Text) → Result Failure (Unit {0})
check_authorizer none cluster_id token name = ok tt
check_authorizer (some a) cluster_id token name = do
  or_return (a.authorize_table cluster_id token name)
  or_return (a.authorize_table_action cluster_id token name action_query_name)

abbrev pub required {ℓ} : {A : Type ℓ} → Option A → Failure → Result Failure A
required none e = err e
required (some a) e = ok a

abbrev pub no_executor : Failure
no_executor = plain (runes "databricks query executor is unavailable")

-- What the backend is asked: the target and the normalized request.
pub record Prepared : Type 0 where
  pub target : QueryExecutionTarget
  pub request : QueryTableRequest
  pub execute : QueryExecutionTarget → Result Failure QueryTableResult

abbrev pub execution_target :
    Table → Warehouse → Connection → Text → QueryTableRequest → QueryExecutionTarget
execution_target tbl wh conn token request = record {
  table = record { catalog = tbl.spec.catalog; schema = tbl.spec.schema; table = tbl.spec.table };
  connection_name = conn.name;
  host = conn.spec.host;
  auth_type = conn.spec.auth_type;
  warehouse_name = wh.name;
  warehouse_id = wh.spec.warehouse_id;
  bearer_token = token;
  projection = request.columns;
  limit = request.limit;
  allowed_columns = map (λ column. column.name) tbl.status.columns;
}

-- The public identity of the result is the request's, not the backend's.
abbrev pub identified : QueryTableRequest → QueryTableResult → QueryTableResult
identified request result = record result {
  action_version = request.action_version;
  table_ref = request.table_ref;
}

module _ (kube : ConditionApi) (quote lower : Text → Text) where
  abbrev pub asked : Text → QueryInput → QueryTableRequest
  asked name input = record {
    action_version = action_version_v1;
    table_ref = name;
    columns = input.columns;
    limit = input.limit;
  }

  -- The table's chain, each link current and ready, with the token.
  unfoldable pub resolve_chain :
      ClusterApi → Text → Result Failure (Table × Warehouse × Connection × Text)
  unfolding resolve_table resolve_warehouse resolve_connection resolve_bearer_token
      current_condition_true text_eq trim_space
  resolve_chain api table_ref = do
    tbl ← resolve_table quote api table_ref
    wh ← resolve_warehouse quote api tbl.spec.warehouse_ref
    reject_if
        (is_empty (trim_space tbl.spec.connection_ref)
          || not (text_eq tbl.spec.connection_ref wh.spec.connection_ref))
        (plain (runes "table and warehouse connection references do not match"))
    reject_if
        (not (
          current_condition_true kube tbl.status.conditions tbl.status.observed_generation
            tbl.generation condition_ready))
        (plain (runes "table is not ready"))
    reject_if (not (warehouse_current kube wh)) (plain (runes "warehouse is not ready"))
    conn ← resolve_connection quote api tbl.spec.connection_ref
    reject_if (not (connection_current kube conn)) (plain (runes "connection is not ready"))
    reject_if (not (text_eq conn.spec.auth_type connection_auth_pat))
        (plain (runes "connection authType is unsupported"))
    token ← resolve_bearer_token quote api conn
    ok (tbl, wh, conn, token)

  -- `QueryTable` up to its call of the backend.
  unfoldable pub prepare_query : ActionExecutor → Text → QueryInput → Result Failure Prepared
  unfolding resolve_chain normalize_query_request trim_space
  prepare_query e name input = do
    reject_if (not e.has_factory) (plain (runes "tenant client unavailable"))
    reject_if (is_empty (trim_space e.cluster_id)) (plain (runes "tenant identity is missing"))
    reject_if (is_empty (trim_space e.token)) (plain (runes "caller credential is missing"))
    reject_if (is_empty (trim_space name)) (plain (runes "resourceRef.name is required"))
    request ← or_query_failure quote (normalize_query_request (asked name input))
    check_authorizer e.authorizer e.cluster_id e.token request.table_ref
    api ← e.authority_client e.cluster_id
    chain ← resolve_chain api request.table_ref
    execute ← required e.executor no_executor
    reject_if (not (is_empty request.columns) && is_empty chain.0.status.columns)
        (plain (runes "table schema is not available for projection"))
    ok (record {
      target = execution_target chain.0 chain.1 chain.2 chain.3 request;
      request = request;
      execute = execute;
    })

  module _ (encoded_size : QueryTableResult → Option ℕ) where
    unfoldable pub query_table_unsafe :
        ActionExecutor → Text → QueryInput → Result Failure QueryTableResult
    unfolding prepare_query bound_query_result
    query_table_unsafe e name input = do
      prepared ← prepare_query e name input
      result ← prepared.execute prepared.target
      ok (bound_query_result encoded_size (identified prepared.request result))

    -- With the deferred call of `sanitizeActionError`.
    unfoldable pub query_table :
        ActionExecutor → Text → QueryInput → Result ActionError QueryTableResult
    unfolding query_table_unsafe sanitize_action_error
    query_table e name input = elim (query_table_unsafe e name input) [
      | ok result ↦ ok result
      | err failure ↦ err (sanitize_action_error lower failure)
    ]
