-- ===== src/Tests/Tenants.antt =====
-- Tests of tenant/action.go on a small cluster.
use provider_databricks.Prelude.{
  ℕ, ◌≡◌, refl, ◌⊎◌, false, true, [], ◌∷◌, Option, some, Text, runes, Result, ok, err, pos, length,
  trim_space,
}
use provider_databricks.Failure.{Failure, api_status, not_found, statement_http_error}
use provider_databricks.Shared.{resolve_table}
use provider_databricks.Query.Outcome.{QueryTableResult, text}
use provider_databricks.Tenant.Authorize.{
  ResourceAttributes, ReviewStatus, authorize_table, authorize_table_action,
}
use provider_databricks.Tenant.Sanitize.{ActionError, sanitize_action_error}
use provider_databricks.Tenant.Sanitize.Missing.{resolve_table-missing}
use provider_databricks.Tenant.Query.{QueryInput, ActionExecutor, query_table}
use provider_databricks.Tenant.Query.Answers.{factory, IsAnswer, query_table-IsAnswer}
use provider_databricks.Actions.{write_failure, default_action_failure_message}
use provider_databricks.Actions.Leaving.{IsLeaving, write_failure-IsLeaving}
use provider_databricks.Tests.Cluster.{conditions_api, orders, cluster_with, plain_quote}

abbrev allow_all :
    (cluster_id token : Text) → Result Failure (ResourceAttributes → Result Failure ReviewStatus)
allow_all cluster_id token = ok (λ attributes. ok (record { allowed = true; reason = runes "" }))

abbrev say_forbidden : (name reason : Text) → Text
say_forbidden name reason = reason

abbrev one_row : QueryTableResult
one_row = record {
  action_version = runes "v1";
  table_ref = runes "table";
  columns = record { name = runes "id"; type = runes "STRING" } ∷ [];
  rows = ((runes "id", text (runes "a")) ∷ []) ∷ [];
  truncated = false;
}

abbrev caller : ActionExecutor
caller = record {
  has_factory = true;
  cluster_id = runes "root";
  token = runes "caller";
  authorizer = some (factory allow_all say_forbidden);
  executor = some (λ target. ok one_row);
  authority_client = λ cluster_id. ok (cluster_with (ok orders));
}

abbrev ids : QueryInput
ids = record { columns = runes "id" ∷ []; limit = pos 5 }

-- Every row counts one byte.
abbrev one_each : QueryTableResult → Option ℕ
one_each r = some (length r.rows)

answers :
    query_table conditions_api plain_quote plain_quote one_each caller (runes "orders") ids
    ≡ ok (record one_row { table_ref = runes "orders" })
unfolding query_table authorize_table authorize_table_action
answers = refl

query_table-IsAnswer_example :
    IsAnswer allow_all say_forbidden conditions_api plain_quote plain_quote one_each caller
      (runes "orders")
      ids
      (record one_row { table_ref = runes "orders" })
query_table-IsAnswer_example =
    query_table-IsAnswer allow_all say_forbidden conditions_api plain_quote plain_quote one_each
      caller (runes "orders") ids (record one_row { table_ref = runes "orders" }) refl answers

abbrev throttled : Failure
throttled = record {
  message = runes "databricks statement failed: 429";
  chain = statement_http_error 429 (runes "429 Too Many Requests") ∷ [];
}

abbrev missing_table : Failure
missing_table = record { message = runes "not found"; chain = api_status not_found ∷ [] }

resolve_table-missing_example :
    (failure : Failure) × (resolve_table plain_quote
        (cluster_with (err missing_table))
        (runes "orders")
      ≡ err failure)
    × (((sanitize_action_error plain_quote failure).status ≡ 409)
        ⊎ ((sanitize_action_error plain_quote failure).status ≡ 502))
unfolding trim_space
resolve_table-missing_example =
    resolve_table-missing plain_quote plain_quote (cluster_with (err missing_table))
      (runes "orders") missing_table refl refl refl

abbrev leaking : ActionError
leaking = record {
  code = runes "resource_not_found";
  message = runes "no secret at https://host";
  retryable = false;
  status = 0;
}

hides_the_leak : (write_failure plain_quote leaking).message ≡ default_action_failure_message
unfolding write_failure
hides_the_leak = refl

write_failure-IsLeaving_example : IsLeaving plain_quote (write_failure plain_quote leaking)
write_failure-IsLeaving_example = write_failure-IsLeaving plain_quote leaking
