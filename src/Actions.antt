-- ===== src/Actions.antt =====
-- actions/actions.go: how an error leaves the action endpoint.
pub mod Leaving
pub mod Paths
pub mod Requests
pub mod Handler
use provider_databricks.Prelude.{
  ℕ, ltb, leb, ◌==◌, if◌then◌else◌, Bool, true, false, not, ◌&&◌, ◌||◌, List, [], ◌∷◌, Option, none,
  some, any, Text, runes, is_empty, byte_length, text_eq, contains, trim_space, has_substring,
}
use provider_databricks.Failure.{Failure, first_of_kind}
use provider_databricks.Tenant.Sanitize.{
  ActionError, as_action_error, code_action_timeout, code_action_failed, code_resource_not_found,
  code_resource_forbidden, code_resource_not_ready, code_schema_projection_invalid,
  code_backend_failure,
}

abbrev pub code_unauthenticated : Text
code_unauthenticated = runes "unauthenticated"

abbrev pub code_tenant_required : Text
code_tenant_required = runes "tenant_required"

abbrev pub code_action_not_found : Text
code_action_not_found = runes "action_not_found"

abbrev pub code_invalid_request : Text
code_invalid_request = runes "invalid_request"

abbrev pub code_invalid_deadline : Text
code_invalid_deadline = runes "invalid_deadline"

abbrev pub code_action_unavailable : Text
code_action_unavailable = runes "action_unavailable"

unfoldable pub is_known_action_error_code : Text → Bool
unfolding contains
is_known_action_error_code code = contains code (
    code_unauthenticated ∷ code_tenant_required ∷ code_action_not_found ∷ code_invalid_request
    ∷ code_invalid_deadline ∷ code_action_unavailable ∷ code_action_timeout ∷ code_action_failed
    ∷ code_resource_not_found ∷ code_resource_forbidden ∷ code_resource_not_ready
    ∷ code_schema_projection_invalid ∷ code_backend_failure ∷ [])

abbrev pub one_of : Text → List Text → Bool
one_of code = any (text_eq code)

-- The cases of both tables over the codes.
abbrev forbids : Text → Bool
forbids code = one_of code (code_tenant_required ∷ code_resource_forbidden ∷ [])

abbrev misses : Text → Bool
misses code = one_of code (code_action_not_found ∷ code_resource_not_found ∷ [])

abbrev invalid : Text → Bool
invalid code =
    one_of code (code_invalid_request ∷ code_invalid_deadline ∷ code_schema_projection_invalid ∷ [])

abbrev pub gateway_code : Text → Bool
gateway_code code = one_of code (code_backend_failure ∷ code_action_failed ∷ [])

unfoldable pub gateway_failure_status : Bool → ℕ
gateway_failure_status retryable = if retryable then 503 else 502

-- The table of `actionErrorStatusAllowed`.
abbrev allowed_for : Text → ℕ → Bool
allowed_for code status =
    if text_eq code code_unauthenticated
    then status == 401
    else if forbids code
    then status == 403
    else if misses code
    then status == 404
    else if invalid code
    then status == 400 || status == 422
    else if text_eq code code_action_unavailable
    then status == 503
    else if text_eq code code_action_timeout
    then status == 504 || status == 503
    else if text_eq code code_resource_not_ready
    then status == 409 || status == 503
    else if gateway_code code
    then status == 502 || status == 503
    else false

unfoldable pub action_error_status_allowed : Text → ℕ → Bool
unfolding text_eq
action_error_status_allowed code status =
    if ltb status 400 || ltb 599 status then false else allowed_for code status

unfoldable pub default_action_error_status : Text → Bool → ℕ
unfolding text_eq gateway_failure_status
default_action_error_status code retryable =
    if text_eq code code_unauthenticated
    then 401
    else if forbids code
    then 403
    else if misses code
    then 404
    else if invalid code
    then 400
    else if text_eq code code_action_unavailable
    then 503
    else if text_eq code code_action_timeout
    then 504
    else if text_eq code code_resource_not_ready
    then (if retryable then 503 else 409)
    else if gateway_code code
    then gateway_failure_status retryable
    else 502

abbrev pub default_action_failure_message : Text
default_action_failure_message = runes "databricks action failed"

abbrev pub max_action_error_message_bytes : ℕ
max_action_error_message_bytes = 512

abbrev pub secret_markers : List Text
secret_markers =
    runes "bearer"
    ∷ runes "token"
    ∷ runes "secret"
    ∷ runes "password"
    ∷ runes "authorization"
    ∷ runes "credential"
    ∷ runes "root:faros:tenants:"
    ∷ runes "/clusters/"
    ∷ runes "http://"
    ∷ runes "https://"
    ∷ runes "://"
    ∷ []

abbrev pub sql_markers : List Text
sql_markers =
    runes "select "
    ∷ runes "insert "
    ∷ runes "update "
    ∷ runes "delete "
    ∷ runes "drop "
    ∷ runes "alter "
    ∷ runes "create "
    ∷ runes "merge "
    ∷ []

-- `r < 0x20 || r == 0x7f`
abbrev pub is_unsafe_rune : ℕ → Bool
is_unsafe_rune r = ltb r 0x20 || r == 0x7f

abbrev failed : ActionError
failed = record {
  code = code_action_failed;
  message = default_action_failure_message;
  retryable = false;
  status = 502;
}

-- The wire error with its status.
pub record WireFailure : Type 0 where
  pub status : ℕ
  pub code : Text
  pub message : Text
  pub retryable : Bool

-- `lower` is `strings.ToLower`.
module _ (lower : Text → Text) where
  -- A message that the checks stop.
  abbrev pub is_unsafe_message : Text → Bool
  is_unsafe_message message =
      any (has_substring (lower message)) secret_markers
      || (any is_unsafe_rune message
          || (any (has_substring (lower message)) sql_markers
              || (is_empty message || ltb max_action_error_message_bytes (byte_length message))))

  unfoldable pub safe_action_error_message : Text → Text
  unfolding trim_space has_substring byte_length
  safe_action_error_message message =
      if is_unsafe_message (trim_space message)
      then default_action_failure_message
      else trim_space message

  -- A known code with a message that was cut to the default for being unsafe.
  abbrev hides : ActionError → Bool
  hides typed =
      let raw = trim_space typed.message in
      not (is_empty raw)
      && (not (text_eq raw default_action_failure_message)
          && text_eq (safe_action_error_message raw) default_action_failure_message)

  abbrev status_of : ActionError → ℕ
  status_of typed =
      if typed.status == 0
      then default_action_error_status (trim_space typed.code) typed.retryable
      else typed.status

  abbrev normal : ActionError → ℕ → ActionError
  normal typed status = record typed {
    code = trim_space typed.code;
    message = safe_action_error_message (trim_space typed.message);
    status = status;
  }

  normalize_typed : ActionError → ActionError
  unfolding trim_space text_eq safe_action_error_message is_known_action_error_code
      action_error_status_allowed default_action_error_status gateway_failure_status
  normalize_typed typed =
      if not (is_known_action_error_code (trim_space typed.code)) || hides typed
      then failed
      else if action_error_status_allowed (trim_space typed.code) (status_of typed)
      then normal typed (status_of typed)
      else if gateway_code (trim_space typed.code)
      then normal typed (gateway_failure_status typed.retryable)
      else failed

  -- On an error that is not nil.
  unfoldable pub normalize_action_error : Failure → ActionError
  unfolding normalize_typed safe_action_error_message
  normalize_action_error e = elim (first_of_kind as_action_error e.chain) [
    | some typed ↦ normalize_typed typed
    | none ↦ record failed { message = safe_action_error_message e.message }
  ]

  abbrev known_or_failed : Text → Text
  known_or_failed code = if is_known_action_error_code code then code else code_action_failed

  -- The code of `writeFailure`, before it looks at the status.
  abbrev leaving_code : ActionError → Text
  leaving_code failure =
      let code = known_or_failed (trim_space failure.code) in
      if text_eq (safe_action_error_message failure.message) default_action_failure_message
        && not (text_eq code code_action_failed)
      then code_action_failed
      else code

  unfoldable pub settle : (code message : Text) → (status : ℕ) → (retryable : Bool) → WireFailure
  unfolding action_error_status_allowed gateway_failure_status text_eq
  settle code message status retryable =
      if action_error_status_allowed code status
      then record { status = status; code = code; message = message; retryable = retryable }
      else if gateway_code code
      then record {
        status = gateway_failure_status retryable;
        code = code;
        message = message;
        retryable = retryable;
      }
      else record {
        status = 502;
        code = code_action_failed;
        message = default_action_failure_message;
        retryable = false;
      }

  -- What `writeFailure` writes of a failure that is not nil.
  unfoldable pub write_failure : ActionError → WireFailure
  unfolding settle safe_action_error_message is_known_action_error_code default_action_error_status
      trim_space text_eq
  write_failure failure =
      let code = leaving_code failure in
      settle code (safe_action_error_message failure.message)
        (if failure.status == 0
          then default_action_error_status code failure.retryable
          else failure.status)
        failure.retryable
