-- ===== src/Controller/Connections.antt =====
-- controller/connection/controller.go.
pub mod Readiness
use provider_databricks.Prelude.{
  ℕ, if◌then◌else◌, Bool, not, Option, none, some, Text, runes, text_eq, Result, ok, err, ◌>>=◌,
  ◌>>◌, reject_if,
}
use provider_databricks.Failure.{
  Failure, Reason, ready, credential_unavailable, auth_type_unsupported, is_databricks_unavailable,
  is_not_found, classify_validation_error, safe_status_message,
}
use provider_databricks.Api.{
  condition_true, condition_false, ConditionStatus, condition_validated, condition_ready,
  connection_auth_pat, Connection,
}
use provider_databricks.Shared.{
  ConditionApi, ClusterApi, set_condition, resolve_bearer_token, dependency_retry_after,
  validation_refresh_after,
}
use provider_databricks.Controller.{
  Reconciled, Rejection, left_alone, update_status, or_reject, auth_type_message,
  validation_rejection, ask_validator,
}

pub record ConnectionValidationTarget : Type 0 where
  pub host : Text
  pub auth_type : Text
  pub bearer_token : Text

pub record ConnectionValidationResult : Type 0 where
  pub principal : Text
  pub workspace_id : Text

-- `backend.ConnectionValidator`; `none` is the nil interface.
abbrev pub ConnectionValidator : Type 0
ConnectionValidator =
    Option (ConnectionValidationTarget → Result Failure ConnectionValidationResult)

unfoldable pub validation_requeue_after : Reason → ℕ
validation_requeue_after reason =
    if is_databricks_unavailable reason then dependency_retry_after else validation_refresh_after

abbrev pub target_of : Connection → Text → ConnectionValidationTarget
target_of conn token = record {
  host = conn.spec.host;
  auth_type = conn.spec.auth_type;
  bearer_token = token;
}

module _ (kube : ConditionApi) where
  -- Both conditions are set, for the current generation.
  abbrev set_both : Connection → ConditionStatus → Reason → Text → Text → Connection
  set_both conn status reason message workspace_id =
      let first =
        set_condition kube conn.status.conditions condition_validated status reason message
          conn.generation in
      record conn {
        status = record {
          observed_generation = conn.generation;
          workspace_id = workspace_id;
          conditions =
              set_condition kube first condition_ready status reason message conn.generation;
        };
      }

  unfoldable pub fail_after : Connection → Rejection → Connection
  fail_after conn r = set_both conn condition_false r.reason r.message (runes "")

  unfoldable pub succeed : Connection → ConnectionValidationResult → Connection
  succeed conn result =
      set_both conn condition_true ready (runes "credential authenticated") result.workspace_id

module _ (quote to_upper : Text → Text) where
  -- From the test of the auth type to the answer of the validator.
  unfoldable pub connection_checks :
      ConnectionValidator → ClusterApi → Connection → Result Rejection ConnectionValidationResult
  unfolding validation_rejection validation_requeue_after resolve_bearer_token text_eq
  connection_checks validator api conn = do
    reject_if (not (text_eq conn.spec.auth_type connection_auth_pat)) (record {
      reason = auth_type_unsupported;
      message = auth_type_message quote conn.spec.auth_type;
      requeue_after = 0;
    })
    token ←
        or_reject credential_unavailable dependency_retry_after
          (resolve_bearer_token quote api conn)
    ask_validator quote to_upper validation_requeue_after
        (runes "databricks credential validator is not configured") validator (target_of conn token)

  module _ (kube : ConditionApi) where
    abbrev settle :
        ClusterApi
        → Connection
        → Result Rejection ConnectionValidationResult
        → Reconciled Connection
    settle api conn (ok result) =
        update_status api.update_connection (succeed kube conn result) validation_refresh_after
    settle api conn (err r) =
        update_status api.update_connection (fail_after kube conn r) r.requeue_after

    abbrev reconcile_existing :
        ConnectionValidator → ClusterApi → Connection → Reconciled Connection
    reconcile_existing validator api conn = elim conn.deletion_timestamp [
      | some _ ↦ left_alone (ok 0)
      | none ↦ settle api conn (connection_checks validator api conn)
    ]

    unfoldable pub reconcile_connection :
        ConnectionValidator → ClusterApi → Text → Reconciled Connection
    unfolding connection_checks fail_after succeed
    reconcile_connection validator api key = elim (api.get_connection key) [
      | err e ↦ left_alone (if is_not_found e then ok 0 else err e)
      | ok conn ↦ reconcile_existing validator api conn
    ]
