-- ===== src/Tenant/Sanitize.antt =====
-- `sanitizeActionError` and `gatewayFailureStatus` of tenant/action.go, with the methods
-- `ActionFailure…` of the statement errors in backend/backend.go.
pub mod Codes
pub mod Missing
use provider_databricks.Prelude.{
  ℕ, ltb, leb, ◌==◌, if◌then◌else◌, Bool, true, false, ◌&&◌, ◌||◌, List, [], ◌∷◌, ◌++◌, Option,
  none, some, map, Text, runes, is_empty, text_eq, trim_space, byte_length, has_substring,
}
use provider_databricks.Failure.{
  Link, statement_http_error, statement_state_error, canceled, deadline_exceeded, validation_error,
  action_error, Failure, first_of_kind, has_kind, as_canceled, as_deadline, is_not_found,
  is_forbidden, is_unauthorized,
}

-- The codes of actions/actions.go that the executor gives.
abbrev pub code_action_timeout : Text
code_action_timeout = runes "action_timeout"

abbrev pub code_action_failed : Text
code_action_failed = runes "action_failed"

abbrev pub code_resource_not_found : Text
code_resource_not_found = runes "resource_not_found"

abbrev pub code_resource_forbidden : Text
code_resource_forbidden = runes "resource_forbidden"

abbrev pub code_resource_not_ready : Text
code_resource_not_ready = runes "resource_not_ready"

abbrev pub code_schema_projection_invalid : Text
code_schema_projection_invalid = runes "schema_projection_invalid"

abbrev pub code_backend_failure : Text
code_backend_failure = runes "backend_failure"

-- `actions.ActionError` without its cause, which is never sent to a caller.
pub record ActionError : Type 0 where
  pub code : Text
  pub message : Text
  pub retryable : Bool
  pub status : ℕ

unfoldable pub gateway_failure_status : Bool → ℕ
gateway_failure_status retryable = if retryable then 503 else 502

abbrev pub as_action_error : Link → Option ActionError
as_action_error (action_error code message retryable status) =
    some (record { code = code; message = message; retryable = retryable; status = status })
as_action_error _ = none

-- `ActionFailureStatus()` and `ActionFailureRetryable()` of `statementHTTPError`.
abbrev statement_failure_status : ℕ → ℕ
statement_failure_status status_code =
    if status_code == 429 || leb 500 status_code then 503 else 502

abbrev pub statement_failure_retryable : ℕ → Bool
statement_failure_retryable status_code =
    if status_code == 408 || status_code == 425 || status_code == 429
    then true
    else leb 500 status_code && leb status_code 599

-- `actionFailureMetadata`
abbrev pub as_metadata : Link → Option ActionError
as_metadata (statement_http_error status_code status) = some (record {
  code = code_backend_failure;
  message = runes "databricks statement failed: " ++ status;
  retryable = statement_failure_retryable status_code;
  status = statement_failure_status status_code;
})
as_metadata (statement_state_error state) = some (record {
  code = code_backend_failure;
  message =
      if is_empty state
      then runes "databricks statement did not complete"
      else runes "databricks statement did not complete: " ++ state;
  retryable = false;
  status = 502;
})
as_metadata _ = none

-- A `ValidationError` with its message, if its code is schema_projection_invalid.
abbrev as_projection : Link → Option (Text × Text)
as_projection (validation_error code message) = some (code, message)
as_projection _ = none

abbrev is_gateway_code : Text → Bool
is_gateway_code code = text_eq code code_backend_failure || text_eq code code_action_failed

abbrev outside_errors : ℕ → Bool
outside_errors status = ltb status 400 || ltb 599 status

-- The status that a typed failure leaves with.
abbrev settled_status : ActionError → ℕ
settled_status e =
    if is_gateway_code e.code
    then gateway_failure_status e.retryable
    else if outside_errors e.status
    then 502
    else e.status

abbrev or_text : Text → Text → Text
or_text t default = if is_empty t then default else t

-- `message == "" || len(message) > 512`
abbrev bounded_message : Text → Text → Text
bounded_message message default =
    if is_empty message || ltb 512 (byte_length message) then default else message

sanitize_typed : ActionError → ActionError
sanitize_typed e = record e { status = settled_status e }

sanitize_metadata : ActionError → ActionError
unfolding trim_space byte_length
sanitize_metadata m =
    let named = record m {
      code = or_text (trim_space m.code) code_backend_failure;
      message = bounded_message (trim_space m.message) (runes "databricks action failed");
    } in
    record named { status = settled_status named }

abbrev timed_out : Text → ActionError
timed_out message = record {
  code = code_action_timeout;
  message = message;
  retryable = true;
  status = 504;
}

abbrev final : Text → Text → ℕ → ActionError
final code message status = record {
  code = code;
  message = message;
  retryable = false;
  status = status;
}

-- `lower` is `strings.ToLower`.
module _ (lower : Text → Text) where
  -- The phrases by which a plain error counts as a resource that is not ready.
  unfoldable pub says_not_ready : Text → Bool
  unfolding has_substring trim_space
  says_not_ready message =
      let text = lower (trim_space message) in
      has_substring text (runes "not ready")
      || (has_substring text (runes "not validated")
          || (has_substring text (runes "schema is not available")
              || has_substring text (runes "unsupported")))

  sanitize_message : Failure → ActionError
  unfolding says_not_ready
  sanitize_message e =
      if says_not_ready e.message
      then final code_resource_not_ready (runes "bound Databricks resource is not ready") 409
      else final code_backend_failure (runes "databricks action failed") 502

  sanitize_api : Failure → ActionError
  unfolding sanitize_message
  sanitize_api e =
      if is_not_found e
      then final code_resource_not_found (runes "bound Databricks resource was not found") 404
      else if is_forbidden e || is_unauthorized e
      then final code_resource_forbidden
          (runes "caller is not allowed to read the bound Databricks resource") 403
      else sanitize_message e

  sanitize_validation : Failure → ActionError
  unfolding sanitize_api trim_space byte_length
  sanitize_validation e = elim (first_of_kind as_projection e.chain) [
    | none ↦ sanitize_api e
    | some (code, message) ↦
        if text_eq code code_schema_projection_invalid
        then final code_schema_projection_invalid
            (bounded_message (trim_space message)
              (runes "requested projection is not present in the imported table schema"))
            400
        else sanitize_api e
  ]

  sanitize_context : Failure → ActionError
  unfolding sanitize_validation
  sanitize_context e =
      if has_kind as_deadline e.chain
      then timed_out (runes "databricks action timed out")
      else if has_kind as_canceled e.chain
      then timed_out (runes "databricks action was canceled")
      else sanitize_validation e

  -- On an error that is not nil.
  unfoldable pub sanitize_action_error : Failure → ActionError
  unfolding sanitize_typed sanitize_metadata sanitize_context text_eq gateway_failure_status
  sanitize_action_error e = elim (first_of_kind as_action_error e.chain) [
    | some typed ↦ sanitize_typed typed
    | none ↦ elim (first_of_kind as_metadata e.chain) [
      | some metadata ↦ sanitize_metadata metadata
      | none ↦ sanitize_context e
    ]
  ]
