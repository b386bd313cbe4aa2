-- ===== src/Actions/Handler.antt =====
-- The action endpoint of actions/actions.go: `NewHandler` and the envelopes that it writes.
pub mod Fitting
pub mod Refusals
pub mod Answers
use provider_databricks.Prelude.{
  ℕ, suc, ◌+◌, leb, ◌==◌, if◌then◌else◌, Bool, true, false, not, ◌||◌, List, [], ◌∷◌, Option, none,
  some, Text, runes, is_empty, text_eq, length, Result, ok, err, ◌>>=◌, ◌>>◌, reject_if,
}
use provider_databricks.Failure.{Failure, plain, has_kind, as_canceled, as_deadline}
use provider_databricks.Failure.Queries.{or_query_failure}
use provider_databricks.Query.Request.{action_version_v1, validate_table_ref}
use provider_databricks.Query.Outcome.{
  QueryTableResult, bound_query_result, max_query_bytes, rounds,
}
use provider_databricks.Query.Outcome.Drops.{Drop, fitted, exhausted, drop_from}
use provider_databricks.Tenant.Sanitize.{ActionError, code_action_timeout, code_backend_failure}
use provider_databricks.Tenant.Query.{QueryInput}
use provider_databricks.Actions.{
  code_unauthenticated, code_action_not_found, code_invalid_request, code_invalid_deadline,
  code_action_unavailable, default_action_failure_message, safe_action_error_message,
  normalize_action_error, write_failure, WireFailure,
}
use provider_databricks.Actions.Paths.{Route, parse_action_path}
use provider_databricks.Actions.Requests.{
  HttpCall, InputJson, normalize_request_id, has_bearer, action_deadline, decode_request,
}

abbrev pub provider_name : Text
provider_name = runes "databricks"

abbrev pub action_query_name : Text
action_query_name = runes "query_table"

abbrev pub action_query_v1 : Text
action_query_v1 = runes "v1"

abbrev pub resource_api_version : Text
resource_api_version = runes "databricks.faros.sh/v1alpha1"

abbrev pub resource_kind : Text
resource_kind = runes "Table"

abbrev pub resource_name : Text
resource_name = runes "tables"

pub record ResourceRef : Type 0 where
  pub api_version : Text
  pub kind : Text
  pub resource : Text
  pub name : Text

pub record WireError : Type 0 where
  pub code : Text
  pub message : Text
  pub retryable : Bool

-- `envelope`
pub record Envelope : Type 0 where
  pub request_id : Text
  pub provider : Text
  pub action : Text
  pub action_version : Text
  pub resource_ref : Option ResourceRef
  pub result : Option QueryTableResult
  pub error : Option WireError

-- A status, the header `X-Request-ID`, and the body before it is encoded.
pub record Response : Type 0 where
  pub status : ℕ
  pub request_id : Text
  pub body : Envelope

-- A `QueryExecutor`, with the time that its context leaves it.
abbrev pub QueryExecutor : Type 0
QueryExecutor = (deadline : ℕ) → ResourceRef → QueryInput → Result Failure QueryTableResult

abbrev pub table_resource : Text → ResourceRef
table_resource name = record {
  api_version = resource_api_version;
  kind = resource_kind;
  resource = resource_name;
  name = name;
}

abbrev identified : Text → (action version : Text) → Option ResourceRef → Envelope
identified request_id action version ref = record {
  request_id = request_id;
  provider = provider_name;
  action = action;
  action_version = version;
  resource_ref = ref;
  result = none;
  error = none;
}

unfoldable pub envelope_identity : Text → Option Route → Envelope
unfolding text_eq
envelope_identity request_id none = identified request_id action_query_name action_query_v1 none
envelope_identity request_id (some route) = identified request_id route.action route.version (
    if not (text_eq route.resource resource_name) || is_empty route.name
    then none
    else some (table_resource route.name))

unfoldable pub default_retryable : Text → Bool
unfolding text_eq
default_retryable code = text_eq code code_action_unavailable || text_eq code code_action_timeout

-- `lower` is `strings.ToLower`.
module _ (lower : Text → Text) where
  unfoldable pub write_envelope_error :
      Text → Option Route → (status : ℕ) → (code message : Text) → Response
  unfolding envelope_identity safe_action_error_message default_retryable
  write_envelope_error request_id route status code message = record {
    status = status;
    request_id = request_id;
    body = record (envelope_identity request_id route) {
      error = some (record {
        code = code;
        message = safe_action_error_message lower message;
        retryable = default_retryable code;
      });
    };
  }

  -- The response of `writeFailure`.
  unfoldable pub failure_response : Text → Option Route → ActionError → Response
  unfolding envelope_identity write_failure
  failure_response request_id route failure =
      let wire = write_failure lower failure in
      record {
        status = wire.status;
        request_id = request_id;
        body = record (envelope_identity request_id route) {
          error =
              some
                (record { code = wire.code; message = wire.message; retryable = wire.retryable });
        };
      }

  -- The error of the executor.
  unfoldable pub executor_failure : Text → Route → Failure → Response
  unfolding write_envelope_error failure_response normalize_action_error
  executor_failure request_id route e =
      if has_kind as_canceled e.chain || has_kind as_deadline e.chain
      then write_envelope_error request_id (some route) 504 code_action_timeout
          (runes "databricks action timed out")
      else failure_response request_id (some route) (normalize_action_error lower e)

-- `encoded_size` and `envelope_size` are the lengths of what `json.Marshal` returns.
module _ (encoded_size : QueryTableResult → Option ℕ) (envelope_size : Envelope → Option ℕ) where
  -- `err == nil && len(payload)+1 <= queryapi.MaxQueryBytes`
  abbrev pub fits_envelope : Envelope → QueryTableResult → Bool
  fits_envelope env result = elim (envelope_size (record env { result = some result })) [
    | none ↦ false
    | some n ↦ leb (n + 1) max_query_bytes
  ]

  abbrev bounded : Envelope → Option Drop → Option Envelope
  bounded env (some (fitted result)) = some (record env { result = some result })
  bounded env (some exhausted) = none
  bounded env none = none

  -- An error is `none`.
  unfoldable pub bound_result_envelope : Envelope → QueryTableResult → Option Envelope
  unfolding drop_from
  bound_result_envelope env result =
      bounded env (drop_from encoded_size (rounds result) (fits_envelope env) result)

-- `if err != nil { write the response of err; return }`
abbrev pub or_write {ℓ} : {A : Type ℓ} → (Failure → Response) → Result Failure A → Result Response A
or_write write (ok a) = ok a
or_write write (err e) = err (write e)

abbrev pub or_respond {ℓ} : {A : Type ℓ} → Response → Option A → Result Response A
or_respond response (some a) = ok a
or_respond response none = err response

-- `route.Resource != resourceName || route.Action != ActionQueryName || route.Version != ActionQueryV1`
abbrev pub wrong_route : Route → Bool
wrong_route route =
    not (text_eq route.resource resource_name)
    || (not (text_eq route.action action_query_name) || not (text_eq route.version action_query_v1))

abbrev pub answered : Text → Route → QueryTableResult → Envelope
answered request_id route result =
    record (identified request_id route.action route.version (some (table_resource route.name))) {
      result = some result;
    }

abbrev response_limit : ActionError
response_limit = record {
  code = code_backend_failure;
  message = default_action_failure_message;
  retryable = false;
  status = 502;
}

-- The result with the identity of the route, under the bounds.
abbrev pub owned_result :
    (QueryTableResult → Option ℕ) → Route → QueryTableResult → QueryTableResult
owned_result encoded_size route result =
    bound_query_result encoded_size
      (record result { action_version = action_version_v1; table_ref = route.name })

-- `find_executor` is `QueryExecutorForRoute`, and `none` where it is nil or returns nil; `random` is what
-- `rand.Read` fills.
module _ (lower quote : Text → Text) (json : InputJson) (encoded_size : QueryTableResult → Option ℕ)
    (envelope_size : Envelope → Option ℕ) (random : Option (List ℕ))
    (find_executor : HttpCall → Route → Option QueryExecutor) where
  -- An early return is an `err`.
  unfoldable pub handle_checked : HttpCall → Text → Result Response Response
  unfolding write_envelope_error failure_response executor_failure has_bearer parse_action_path
      validate_table_ref decode_request action_deadline bound_query_result bound_result_envelope
      text_eq
  handle_checked call request_id = do
    reject_if (not (text_eq call.method (runes "POST"))) (
        write_envelope_error lower request_id none 405 (runes "method_not_allowed")
          (runes "method not allowed"))
    reject_if (not (has_bearer lower call.authorization)) (
        write_envelope_error lower request_id none 401 code_unauthenticated
          (runes "a bearer credential is required"))
    route ←
        or_write
          (λ e.
            write_envelope_error lower request_id none 404 code_action_not_found
              (runes "action endpoint not found"))
          (parse_action_path call.path)
    reject_if (wrong_route route) (
        write_envelope_error lower request_id (some route) 404 code_action_not_found
          (runes "action endpoint not found"))
    or_write
        (λ e. write_envelope_error lower request_id (some route) 400 code_invalid_request e.message)
        (or_query_failure quote (validate_table_ref route.name))
    input ←
        or_write
          (λ e.
            write_envelope_error lower request_id (some route) 400 code_invalid_request e.message)
          (decode_request json quote call.body)
    execute ←
        or_respond
          (write_envelope_error lower request_id (some route) 503 code_action_unavailable
            (runes "databricks action executor is unavailable"))
          (find_executor call route)
    deadline ←
        or_write
          (λ e.
            write_envelope_error lower request_id (some route) 400 code_invalid_deadline e.message)
          (action_deadline call.deadline)
    result ←
        or_write (executor_failure lower request_id route)
          (execute deadline (table_resource route.name) input)
    body ← or_respond (failure_response lower request_id (some route) response_limit) (
        bound_result_envelope encoded_size envelope_size
          (answered request_id route (owned_result encoded_size route result))
          (owned_result encoded_size route result))
    ok (record { status = 200; request_id = request_id; body = body })

  -- The handler of `NewHandler`.
  unfoldable pub handle : HttpCall → Response
  unfolding handle_checked normalize_request_id
  handle call = elim (handle_checked call (normalize_request_id random call.request_id)) [
    | ok response ↦ response
    | err response ↦ response
  ]
