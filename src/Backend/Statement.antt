-- ===== src/Backend/Statement.antt =====
-- backend/backend.go: one statement is sent to a warehouse, and its answer becomes a result.
pub mod Cells
pub mod Runs
use provider_databricks.Prelude.{
  ℕ, ltb, leb, if◌then◌else◌, Bool, true, false, not, ◌&&◌, ◌||◌, ◌==◌, List, [], ◌∷◌, ◌++◌, map,
  any, Option, none, some, Text, runes, is_empty, length, byte_length, text_eq, trim_space, Result,
  ok, err, ◌>>=◌, ◌>>◌, reject_if, ◌+◌, ◌*◌, itoa,
}
use provider_databricks.Failure.{
  Failure, plain, wrapped, statement_http_error, statement_state_error,
}
use provider_databricks.Failure.Queries.{or_query_failure}
use provider_databricks.Query.Request.{
  action_version_v1, QueryTableRequest, normalize_query_request,
}
use provider_databricks.Query.Sql.{select_table_sql}
use provider_databricks.Query.Targets.{TableTarget, QueryExecutionTarget}
use provider_databricks.Query.Outcome.{
  Value, QueryColumn, Row, QueryTableResult, bound_query_result,
}
use provider_databricks.Backend.Urls.{NetApi, StatementClient, or_wrapped, statement_execution_url}

pub record StatementRequest : Type 0 where
  pub statement : Text
  pub warehouse_id : Text
  pub wait_timeout : Text
  pub on_wait_timeout : Text
  pub disposition : Text
  pub format : Text

pub record ManifestColumn : Type 0 where
  pub name : Text
  pub type_name : Text
  pub type_text : Text

-- `statementResponse`, flattened.
pub record StatementResponse : Type 0 where
  pub state : Text
  pub error_message : Text
  pub columns : List ManifestColumn
  pub manifest_truncated : Bool
  pub data_array : List (List Value)
  pub result_truncated : Bool

-- A request with its `Authorization` header; a GET has no payload.
pub record HttpRequest : Type 0 where
  pub method : Text
  pub url : Text
  pub authorization : Text
  pub payload : Text

-- `read n` is what `io.ReadAll` gives of the first `n` bytes of the body.
pub record HttpResponse : Type 0 where
  pub status_code : ℕ
  pub status : Text
  pub read : ℕ → Result Failure Text

-- What the code calls of net/http and encoding/json: `build` is the error of
-- `http.NewRequestWithContext`, and a size is the length of `json.Marshal`'s output.
pub record HttpApi : Type 0 where
  pub to_upper : Text → Text
  pub build : HttpRequest → Option Failure
  pub send : HttpRequest → Result Failure HttpResponse
  pub encode_statement : StatementRequest → Result Failure Text
  pub decode_statement : Text → Result Failure StatementResponse
  pub encoded_size : QueryTableResult → Option ℕ

abbrev pub max_statement_response_bytes : ℕ
max_statement_response_bytes = 1024 * 1024

-- `decodeBoundedJSON`, with the decoder of the type that is asked for.
unfoldable pub decode_bounded {ℓ} :
    {A : Type ℓ} → ℕ → (Text → Result Failure A) → HttpResponse → Result Failure A
unfolding byte_length itoa
decode_bounded max_bytes decode response = do
  reject_if (ltb max_bytes 1) (plain (runes "invalid response byte limit"))
  payload ← response.read (max_bytes + 1)
  reject_if (ltb max_bytes (byte_length payload))
      (plain (runes "response exceeds the " ++ (itoa max_bytes ++ runes "-byte limit")))
  decode payload

-- `resp.StatusCode < 200 || resp.StatusCode >= 300`
abbrev pub is_failure : HttpResponse → Bool
is_failure response = ltb response.status_code 200 || leb 300 response.status_code

unfoldable pub wait_timeout_of : StatementClient → Text
unfolding trim_space
wait_timeout_of c = if is_empty (trim_space c.wait_timeout) then runes "10s" else c.wait_timeout

abbrev pub built : HttpApi → Text → HttpRequest → Result Failure HttpRequest
built http prefix request = elim (http.build request) [
  | none ↦ ok request
  | some e ↦ err (wrapped prefix e)
]

-- `Error()` of `statementHTTPError`, with the error in its chain.
abbrev http_failure : HttpResponse → Failure
http_failure response = record {
  message = runes "databricks statement failed: " ++ response.status;
  chain = statement_http_error response.status_code response.status ∷ [];
}

abbrev state_failure : Text → Failure
state_failure state = record {
  message =
      if is_empty state
      then runes "databricks statement did not complete"
      else runes "databricks statement did not complete: " ++ state;
  chain = statement_state_error state ∷ [];
}

-- `typ`, the text of the type or else its name.
unfoldable pub column_type : ManifestColumn → Text
unfolding trim_space
column_type column =
    let text = trim_space column.type_text in
    if is_empty text then trim_space column.type_name else text

-- The map of one row; a later column of the same name takes the place of an earlier one.
unfoldable pub row_from : Row → List QueryColumn → List Value → Row
row_from row [] values = row
row_from row (column ∷ columns) [] = row
row_from row (column ∷ columns) (value ∷ values) =
    row_from ((column.name, value) ∷ row) columns values

unfoldable pub query_result_from_statement : StatementResponse → Text → QueryTableResult
unfolding column_type row_from
query_result_from_statement response table_ref =
    let columns : List QueryColumn =
      map (λ column. record { name = column.name; type = column_type column }) response.columns in
    record {
      action_version = action_version_v1;
      table_ref = table_ref;
      columns = columns;
      rows = map (row_from [] columns) response.data_array;
      truncated =
          (response.manifest_truncated || response.result_truncated)
          || any (λ values. not (length values == length columns)) response.data_array;
    }

module _ (net : NetApi) (http : HttpApi) where
  abbrev pub statement_request : StatementClient → TableTarget → Text → StatementRequest
  statement_request c target sql = record {
    statement = sql;
    warehouse_id = target.warehouse_id;
    wait_timeout = wait_timeout_of c;
    on_wait_timeout = runes "CANCEL";
    disposition = runes "INLINE";
    format = runes "JSON_ARRAY";
  }

  abbrev pub posted : Text → Text → Text → HttpRequest
  posted endpoint token payload = record {
    method = runes "POST";
    url = endpoint;
    authorization = runes "Bearer " ++ token;
    payload = payload;
  }

  abbrev pub upper_state : StatementResponse → Text
  upper_state out = http.to_upper (trim_space out.state)

  unfoldable pub execute_statement :
      StatementClient → TableTarget → Text → Result Failure StatementResponse
  unfolding statement_execution_url wait_timeout_of decode_bounded trim_space text_eq
  execute_statement c target sql = do
    reject_if (is_empty (trim_space target.host))
        (plain (runes "databricks connection host is required"))
    reject_if (is_empty (trim_space target.warehouse_id))
        (plain (runes "databricks warehouse_id is required"))
    reject_if (is_empty (trim_space target.bearer_token))
        (plain (runes "databricks bearer token is required"))
    endpoint ← statement_execution_url net c target.host
    payload ←
        or_wrapped (runes "encode statement request: ")
          (http.encode_statement (statement_request c target sql))
    request ←
        built http (runes "build statement request: ") (posted endpoint target.bearer_token payload)
    response ← or_wrapped (runes "execute statement: ") (http.send request)
    reject_if (is_failure response) (http_failure response)
    out ←
        or_wrapped (runes "decode statement response: ")
          (decode_bounded max_statement_response_bytes http.decode_statement response)
    reject_if
        (not (is_empty (upper_state out)) && not (text_eq (upper_state out) (runes "SUCCEEDED")))
        (state_failure (upper_state out))
    ok out

  abbrev pub execution_request : QueryExecutionTarget → QueryTableRequest
  execution_request target = record {
    action_version = action_version_v1;
    table_ref = runes "table";
    columns = target.projection;
    limit = target.limit;
  }

  abbrev pub table_target : QueryExecutionTarget → TableTarget
  table_target target = record {
    table = target.table;
    connection_name = target.connection_name;
    host = target.host;
    auth_type = target.auth_type;
    warehouse_name = target.warehouse_name;
    warehouse_id = target.warehouse_id;
    bearer_token = target.bearer_token;
  }

  unfoldable pub execute_table_query :
      StatementClient → QueryExecutionTarget → Result Failure QueryTableResult
  unfolding normalize_query_request select_table_sql execute_statement query_result_from_statement
      bound_query_result
  execute_table_query c target = do
    request ← or_query_failure net.quote (normalize_query_request (execution_request target))
    sql ←
        or_query_failure net.quote
          (select_table_sql target.table request.columns request.limit target.allowed_columns)
    response ← execute_statement c (table_target target) sql
    ok (
        bound_query_result http.encoded_size
          (query_result_from_statement response request.table_ref))
