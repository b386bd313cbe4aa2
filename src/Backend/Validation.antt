-- ===== src/Backend/Validation.antt =====
-- backend/validation.go: what the validators of connections and warehouses ask of Databricks.
pub mod Tables
pub mod Escapes
use provider_databricks.Prelude.{
  ℕ, ◌==◌, ◌*◌, if◌then◌else◌, Bool, true, false, not, List, [], ◌∷◌, ◌++◌, Option, none, some,
  Text, runes, is_empty, text_eq, trim_space, Result, ok, err, ◌>>=◌, ◌>>◌, reject_if,
}
use provider_databricks.Failure.{
  Failure, Link, plain, current_user_http_error, warehouse_http_error, first_of_kind,
  warehouse_message, warehouse_message,
}
use provider_databricks.Api.{connection_auth_pat}
use provider_databricks.Query.Outcome.{Value, text, number, Row, value_at}
use provider_databricks.Controller.Connections.{
  ConnectionValidationTarget, ConnectionValidationResult,
}
use provider_databricks.Controller.Warehouses.{WarehouseValidationTarget, WarehouseValidationResult}
use provider_databricks.Backend.Urls.{
  NetApi, StatementClient, or_wrapped, current_user_endpoints, warehouse_endpoint,
}
use provider_databricks.Backend.Statement.{
  HttpRequest, HttpResponse, HttpApi, built, is_failure, decode_bounded,
}

abbrev pub max_metadata_response_bytes : ℕ
max_metadata_response_bytes = 64 * 1024

-- `tableSummary`
pub record TableSummary : Type 0 where
  pub full_name : Text
  pub table_type : Text

pub record TableSummaries : Type 0 where
  pub tables : List TableSummary
  pub next_page_token : Text

-- What the code calls of encoding/json, fmt and strings for metadata: `format_number` is the verb
-- `%.0f` on a decoded number.
pub record MetadataApi : Type 0 where
  pub decode_object : Text → Result Failure Row
  pub decode_summaries : Text → Result Failure TableSummaries
  pub format_number : Text → Text
  pub equal_fold : Text → Text → Bool

abbrev pub fetched : Text → Text → HttpRequest
fetched endpoint token = record {
  method = runes "GET";
  url = endpoint;
  authorization = runes "Bearer " ++ token;
  payload = [];
}

abbrev pub with_link : Text → Link → Failure
with_link message link = record { message = message; chain = link ∷ [] }

module _ (net : NetApi) (http : HttpApi) (metadata : MetadataApi) where
  -- The text of one value, if the loop stops at it.
  abbrev string_of : Option Value → Option Text
  string_of (some (text t)) = if is_empty (trim_space t) then none else some (trim_space t)
  string_of (some (number n)) = some (metadata.format_number n)
  string_of _ = none

  unfoldable pub first_string : Row → List Text → Text
  unfolding value_at trim_space
  first_string values [] = []
  first_string values (key ∷ keys) =
      let rest = first_string values keys in
      elim (string_of (value_at key values)) [ some t ↦ t | none ↦ rest ]

  -- A GET with the token: its response, with the two prefixes of its errors.
  abbrev pub get : (build_prefix send_prefix endpoint token : Text) → Result Failure HttpResponse
  get build_prefix send_prefix endpoint token = do
    request ← built http build_prefix (fetched endpoint token)
    or_wrapped send_prefix (http.send request)

  unfoldable pub validate_current_user :
      (endpoint token : Text) → Result Failure ConnectionValidationResult
  unfolding first_string decode_bounded
  validate_current_user endpoint token = do
    response ←
        get (runes "build current-user request: ") (runes "validate databricks credential: ")
          endpoint token
    reject_if (is_failure response) (
        with_link (runes "databricks credential validation failed: " ++ response.status)
          (current_user_http_error response.status_code response.status))
    payload ←
        or_wrapped (runes "decode current-user response: ")
          (decode_bounded max_metadata_response_bytes metadata.decode_object response)
    ok (record {
      principal = first_string payload (
          runes "userName"
          ∷ runes "username"
          ∷ runes "user_name"
          ∷ runes "email"
          ∷ runes "displayName"
          ∷ runes "id"
          ∷ []);
      workspace_id =
          first_string payload
            (runes "workspace_id" ∷ runes "workspaceId" ∷ runes "workspaceID" ∷ []);
    })

  abbrev as_current_user : Link → Option ℕ
  as_current_user (current_user_http_error code status) = some code
  as_current_user _ = none

  unfoldable pub is_endpoint_not_found : Failure → Bool
  is_endpoint_not_found e = elim (first_of_kind as_current_user e.chain) [
    | none ↦ false
    | some code ↦ code == 404
  ]

  abbrev unavailable : Option Failure → Failure
  unavailable none = plain (runes "databricks current-user endpoint unavailable")
  unavailable (some e) = e

  -- The loop over the endpoints, with `notFoundErr`.
  unfoldable pub try_endpoints :
      Option Failure → List Text → Text → Result Failure ConnectionValidationResult
  unfolding validate_current_user is_endpoint_not_found
  try_endpoints missing [] token = err (unavailable missing)
  try_endpoints missing (endpoint ∷ endpoints) token = elim (validate_current_user endpoint token) [
    | ok result ↦ ok result
    | err e ↦ elim (is_endpoint_not_found e) [
      | true ↦ try_endpoints (some e) endpoints token
      | false ↦ err e
    ]
  ]

  unfoldable pub validate_connection :
      StatementClient → ConnectionValidationTarget → Result Failure ConnectionValidationResult
  unfolding try_endpoints current_user_endpoints trim_space text_eq
  validate_connection c target = do
    reject_if (not (text_eq target.auth_type connection_auth_pat))
        (plain (runes "unsupported authType " ++ net.quote target.auth_type))
    reject_if (is_empty (trim_space target.bearer_token))
        (plain (runes "databricks bearer token is required"))
    endpoints ← current_user_endpoints net c target.host
    try_endpoints none endpoints target.bearer_token

  unfoldable pub validate_warehouse :
      StatementClient → WarehouseValidationTarget → Result Failure WarehouseValidationResult
  unfolding warehouse_endpoint first_string decode_bounded trim_space warehouse_message
  validate_warehouse c target = do
    reject_if (is_empty (trim_space target.bearer_token))
        (plain (runes "databricks bearer token is required"))
    reject_if (is_empty (trim_space target.warehouse_id))
        (plain (runes "databricks warehouse_id is required"))
    endpoint ← warehouse_endpoint net c target.host target.warehouse_id
    response ←
        get (runes "build warehouse request: ") (runes "validate databricks warehouse: ") endpoint
          target.bearer_token
    reject_if (is_failure response) (
        with_link
          (warehouse_message net.quote http.to_upper response.status_code response.status
            (trim_space target.warehouse_id))
          (warehouse_http_error response.status_code response.status
            (trim_space target.warehouse_id)))
    payload ←
        or_wrapped (runes "decode warehouse response: ")
          (decode_bounded max_metadata_response_bytes metadata.decode_object response)
    ok (record {
      name = first_string payload (runes "name" ∷ []);
      state = first_string payload (runes "state" ∷ []);
    })
