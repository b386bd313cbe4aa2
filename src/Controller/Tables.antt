-- ===== src/Controller/Tables.antt =====
-- controller/table/controller.go.
pub mod Readiness
pub mod Cache
use provider_databricks.Prelude.{
  ℕ, ltb, ◌==◌, if◌then◌else◌, Bool, true, false, not, ◌&&◌, List, [], ◌∷◌, ◌++◌, Option, none,
  some, Text, runes, text_eq, length, take, itoa, select, map, Result, ok, err, ◌>>=◌, ◌>>◌,
  reject_if,
}
use provider_databricks.Failure.{
  Failure, Reason, ready, schema_truncated, credential_unavailable, auth_type_unsupported,
  connection_unavailable, connection_not_ready, warehouse_unavailable, warehouse_not_ready,
  warehouse_connection_mismatch, is_databricks_unavailable, is_unsupported_table_type, is_not_found,
}
use provider_databricks.Api.{
  condition_true, condition_false, condition_ready, connection_auth_pat, Connection, Warehouse,
  Column, Table,
}
use provider_databricks.Shared.{
  ConditionApi, ClusterApi, set_condition, current_condition_true, resolve_connection,
  resolve_warehouse, resolve_bearer_token, dependency_retry_after, validation_refresh_after,
}
use provider_databricks.Query.Request.{max_query_columns}
use provider_databricks.Query.Targets.{TableTarget}
use provider_databricks.Controller.{
  Reconciled, Rejection, left_alone, update_status, or_reject, auth_type_message,
  validation_rejection, ask_validator,
}
use provider_databricks.Controller.Warehouses.{connection_current}

-- `backend.TableValidator`, with the columns of its result.
abbrev pub TableValidator : Type 0
TableValidator = Option (TableTarget → Result Failure (List Column))

-- The names of the tables to reconcile when a connection or a warehouse changes.
unfoldable pub table_requests_for_connection : List Table → Text → List Text
unfolding text_eq
table_requests_for_connection items connection_name =
    map (λ t. t.name) (select (λ t. text_eq t.spec.connection_ref connection_name) items)

unfoldable pub table_requests_for_warehouse : List Table → Text → List Text
unfolding text_eq
table_requests_for_warehouse items warehouse_name =
    map (λ t. t.name) (select (λ t. text_eq t.spec.warehouse_ref warehouse_name) items)

unfoldable pub validation_requeue_after : Reason → ℕ
validation_requeue_after reason =
    if is_unsupported_table_type reason
    then 0
    else if is_databricks_unavailable reason
    then dependency_retry_after
    else validation_refresh_after

-- The cached columns, how many there were, and whether some were cut off.
pub record BoundedSchema : Type 0 where
  pub columns : List Column
  pub total : ℕ
  pub truncated : Bool

unfoldable pub bounded_schema : List Column → BoundedSchema
bounded_schema input = record {
  columns = if ltb max_query_columns (length input) then take max_query_columns input else input;
  total = length input;
  truncated = ltb max_query_columns (length input);
}

abbrev pub target_of : Table → Warehouse → Connection → Text → TableTarget
target_of tbl wh conn token = record {
  table = record { catalog = tbl.spec.catalog; schema = tbl.spec.schema; table = tbl.spec.table };
  connection_name = conn.name;
  host = conn.spec.host;
  auth_type = conn.spec.auth_type;
  warehouse_name = wh.name;
  warehouse_id = wh.spec.warehouse_id;
  bearer_token = token;
}

abbrev pub success_reason : BoundedSchema → Reason
success_reason schema = if schema.truncated then schema_truncated else ready

abbrev pub success_message : BoundedSchema → Text
success_message schema =
    if schema.truncated
    then runes "table schema refreshed (cached "
      ++ (itoa (length schema.columns)
          ++ (runes " of " ++ (itoa schema.total ++ runes " columns; schema cache is truncated)")))
    else runes "table schema refreshed (" ++ (itoa schema.total ++ runes " columns)")

module _ (kube : ConditionApi) where
  -- The cached schema stays only if it was read for this generation.
  unfoldable pub fail_after : Table → Rejection → Table
  fail_after tbl r =
      let current = tbl.status.observed_generation == tbl.generation in
      record tbl {
        status = record {
          observed_generation = tbl.generation;
          refreshed_at = if current then tbl.status.refreshed_at else none;
          columns = if current then tbl.status.columns else [];
          conditions =
              set_condition kube tbl.status.conditions condition_ready condition_false r.reason
                r.message tbl.generation;
        };
      }

  unfoldable pub succeed : (now : ℕ) → Table → List Column → Table
  unfolding bounded_schema
  succeed now tbl found =
      let schema = bounded_schema found in
      record tbl {
        status = record {
          observed_generation = tbl.generation;
          refreshed_at = some now;
          columns = schema.columns;
          conditions =
              set_condition kube tbl.status.conditions condition_ready condition_true
                (success_reason schema) (success_message schema) tbl.generation;
        };
      }

  abbrev pub warehouse_current : Warehouse → Bool
  warehouse_current wh =
      current_condition_true kube wh.status.conditions wh.status.observed_generation wh.generation
        condition_ready

  module _ (quote to_upper : Text → Text) where
    abbrev mismatch_message : Table → Warehouse → Text
    mismatch_message tbl wh =
        runes "table connectionRef "
        ++ (quote tbl.spec.connection_ref
            ++ (runes " does not match warehouse connectionRef " ++ quote wh.spec.connection_ref))

    -- From the warehouse to the answer of the validator.
    unfoldable pub table_checks :
        TableValidator → ClusterApi → Table → Result Rejection (List Column)
    unfolding validation_rejection validation_requeue_after resolve_connection resolve_warehouse
        resolve_bearer_token current_condition_true text_eq
    table_checks validator api tbl = do
      wh ←
          or_reject warehouse_unavailable dependency_retry_after
            (resolve_warehouse quote api tbl.spec.warehouse_ref)
      reject_if (not (text_eq wh.spec.connection_ref tbl.spec.connection_ref)) (record {
        reason = warehouse_connection_mismatch;
        message = mismatch_message tbl wh;
        requeue_after = validation_refresh_after;
      })
      reject_if (not (warehouse_current wh)) (record {
        reason = warehouse_not_ready;
        message = runes "warehouse is not currently ready";
        requeue_after = dependency_retry_after;
      })
      conn ←
          or_reject connection_unavailable dependency_retry_after
            (resolve_connection quote api tbl.spec.connection_ref)
      reject_if (not (connection_current kube conn)) (record {
        reason = connection_not_ready;
        message = runes "connection is not currently ready";
        requeue_after = dependency_retry_after;
      })
      reject_if (not (text_eq conn.spec.auth_type connection_auth_pat)) (record {
        reason = auth_type_unsupported;
        message = auth_type_message quote conn.spec.auth_type;
        requeue_after = validation_refresh_after;
      })
      token ←
          or_reject credential_unavailable dependency_retry_after
            (resolve_bearer_token quote api conn)
      ask_validator quote to_upper validation_requeue_after
          (runes "databricks table validator is not configured") validator
          (target_of tbl wh conn token)

    abbrev settle : ℕ → ClusterApi → Table → Result Rejection (List Column) → Reconciled Table
    settle now api tbl (ok found) =
        update_status api.update_table (succeed now tbl found) validation_refresh_after
    settle now api tbl (err r) = update_status api.update_table (fail_after tbl r) r.requeue_after

    abbrev reconcile_existing : ℕ → TableValidator → ClusterApi → Table → Reconciled Table
    reconcile_existing now validator api tbl = elim tbl.deletion_timestamp [
      | some _ ↦ left_alone (ok 0)
      | none ↦ settle now api tbl (table_checks validator api tbl)
    ]

    unfoldable pub reconcile_table :
        (now : ℕ) → TableValidator → ClusterApi → Text → Reconciled Table
    unfolding table_checks fail_after succeed
    reconcile_table now validator api key = elim (api.get_table key) [
      | err e ↦ left_alone (if is_not_found e then ok 0 else err e)
      | ok tbl ↦ reconcile_existing now validator api tbl
    ]
