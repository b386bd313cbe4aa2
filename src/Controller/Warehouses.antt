-- ===== src/Controller/Warehouses.antt =====
-- controller/warehouse/controller.go.
pub mod Readiness
use provider_databricks.Prelude.{
  ℕ, if◌then◌else◌, Bool, not, ◌&&◌, List, [], ◌∷◌, ◌++◌, Option, none, some, Text, runes, text_eq,
  is_empty, select, map, Result, ok, err, ◌>>=◌, ◌>>◌, reject_if,
}
use provider_databricks.Failure.{
  Failure, Reason, ready, credential_unavailable, auth_type_unsupported, connection_unavailable,
  connection_not_ready, is_databricks_unavailable, is_not_found,
}
use provider_databricks.Api.{
  condition_true, condition_false, ConditionStatus, condition_validated, condition_ready,
  connection_auth_pat, Connection, Warehouse,
}
use provider_databricks.Shared.{
  ConditionApi, ClusterApi, set_condition, current_condition_true, resolve_connection,
  resolve_bearer_token, dependency_retry_after, validation_refresh_after,
}
use provider_databricks.Controller.{
  Reconciled, Rejection, left_alone, update_status, or_reject, auth_type_message,
  validation_rejection, ask_validator,
}

pub record WarehouseValidationTarget : Type 0 where
  pub host : Text
  pub warehouse_id : Text
  pub bearer_token : Text

pub record WarehouseValidationResult : Type 0 where
  pub name : Text
  pub state : Text

-- `backend.WarehouseValidator`
abbrev pub WarehouseValidator : Type 0
WarehouseValidator = Option (WarehouseValidationTarget → Result Failure WarehouseValidationResult)

-- The names of the warehouses to reconcile when a connection changes.
unfoldable pub warehouse_requests_for_connection : List Warehouse → Text → List Text
unfolding text_eq
warehouse_requests_for_connection items connection_name =
    map (λ wh. wh.name) (select (λ wh. text_eq wh.spec.connection_ref connection_name) items)

unfoldable pub validation_requeue_after : Reason → ℕ
validation_requeue_after reason =
    if is_databricks_unavailable reason then dependency_retry_after else validation_refresh_after

abbrev pub target_of : Connection → Warehouse → Text → WarehouseValidationTarget
target_of conn wh token = record {
  host = conn.spec.host;
  warehouse_id = wh.spec.warehouse_id;
  bearer_token = token;
}

abbrev success_message : WarehouseValidationResult → Text
success_message result =
    let named =
      if is_empty result.name
      then runes "warehouse validated"
      else runes "warehouse validated" ++ (runes ": " ++ result.name) in
    if is_empty result.state then named else named ++ (runes " (" ++ (result.state ++ runes ")"))

module _ (kube : ConditionApi) where
  abbrev set_ready : Warehouse → ConditionStatus → Reason → Text → Text → Warehouse
  set_ready wh status reason message state = record wh {
    status = record {
      observed_generation = wh.generation;
      state = state;
      conditions =
          set_condition kube wh.status.conditions condition_ready status reason message
            wh.generation;
    };
  }

  unfoldable pub fail_after : Warehouse → Rejection → Warehouse
  fail_after wh r = set_ready wh condition_false r.reason r.message (runes "")

  unfoldable pub succeed : Warehouse → WarehouseValidationResult → Warehouse
  succeed wh result = set_ready wh condition_true ready (success_message result) result.state

  -- Both conditions of the connection hold for its current generation.
  abbrev pub connection_current : Connection → Bool
  connection_current conn =
      let holds =
        current_condition_true kube conn.status.conditions conn.status.observed_generation
          conn.generation in
      holds condition_validated && holds condition_ready

  module _ (quote to_upper : Text → Text) where
    -- From the connection to the answer of the validator.
    unfoldable pub warehouse_checks :
        WarehouseValidator → ClusterApi → Warehouse → Result Rejection WarehouseValidationResult
    unfolding validation_rejection validation_requeue_after resolve_connection resolve_bearer_token
        current_condition_true text_eq
    warehouse_checks validator api wh = do
      conn ←
          or_reject connection_unavailable dependency_retry_after
            (resolve_connection quote api wh.spec.connection_ref)
      reject_if (not (text_eq conn.spec.auth_type connection_auth_pat)) (record {
        reason = auth_type_unsupported;
        message = auth_type_message quote conn.spec.auth_type;
        requeue_after = validation_refresh_after;
      })
      reject_if (not (connection_current conn)) (record {
        reason = connection_not_ready;
        message = runes "connection is not currently ready";
        requeue_after = dependency_retry_after;
      })
      token ←
          or_reject credential_unavailable dependency_retry_after
            (resolve_bearer_token quote api conn)
      ask_validator quote to_upper validation_requeue_after
          (runes "databricks warehouse validator is not configured") validator
          (target_of conn wh token)

    abbrev settle :
        ClusterApi → Warehouse → Result Rejection WarehouseValidationResult → Reconciled Warehouse
    settle api wh (ok result) =
        update_status api.update_warehouse (succeed wh result) validation_refresh_after
    settle api wh (err r) = update_status api.update_warehouse (fail_after wh r) r.requeue_after

    abbrev reconcile_existing : WarehouseValidator → ClusterApi → Warehouse → Reconciled Warehouse
    reconcile_existing validator api wh = elim wh.deletion_timestamp [
      | some _ ↦ left_alone (ok 0)
      | none ↦ settle api wh (warehouse_checks validator api wh)
    ]

    unfoldable pub reconcile_warehouse :
        WarehouseValidator → ClusterApi → Text → Reconciled Warehouse
    unfolding warehouse_checks fail_after succeed
    reconcile_warehouse validator api key = elim (api.get_warehouse key) [
      | err e ↦ left_alone (if is_not_found e then ok 0 else err e)
      | ok wh ↦ reconcile_existing validator api wh
    ]
