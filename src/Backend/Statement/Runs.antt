-- ===== src/Backend/Statement/Runs.antt =====
-- What stands behind a result that the backend gives.
use provider_databricks.Prelude.{
  true, false, not, ◌&&◌, Text, runes, is_empty, text_eq, text_eq_iff, trim_space, ok, ◌≡◌, sym, ap,
  ◌∙◌, ◌⊎◌, inl, inr, arith, >>=-eq-ok, reject_if-eq-ok, ok-injective, Bool-cases, Option-cases,
  ok≢err, subst,
}
use provider_databricks.Failure.Queries.{or_query_failure, or_query_failure-eq-ok}
use provider_databricks.Query.Request.{QueryTableRequest, normalize_query_request}
use provider_databricks.Query.Sql.{select_table_sql}
use provider_databricks.Query.Sql.Parsing.{IsSelect, select_table_sql-IsSelect}
use provider_databricks.Query.Targets.{TableTarget, QueryExecutionTarget}
use provider_databricks.Query.Outcome.{
  QueryTableResult, max_query_bytes, normalize_result_shape, bound_query_result,
}
use provider_databricks.Query.Outcome.Drawn.{normalized_part-IsDrawn}
use provider_databricks.Backend.Statement.Cells.{HoldsAnswer, IsDrawn-HoldsAnswer}
use provider_databricks.Query.Outcome.Bounds.{IsWithin}
use provider_databricks.Query.Outcome.Drops.Leaves.{bound_query_result-IsWithin}
use provider_databricks.Backend.Urls.{
  NetApi, StatementClient, Url, at_path, workspace_url, statement_execution_url, or_wrapped,
}
use provider_databricks.Backend.Urls.Safety.{
  IsWorkspace, workspace_url-IsWorkspace, or_wrapped-eq-ok,
}
use provider_databricks.Backend.Statement.{
  StatementResponse, HttpRequest, HttpResponse, HttpApi, max_statement_response_bytes,
  decode_bounded, is_failure, built, query_result_from_statement, statement_request, posted,
  upper_state, execute_statement, execution_request, table_target, execute_table_query,
}

pub built-eq-ok :
    (http : HttpApi) (prefix : Text) (request : HttpRequest) {r : HttpRequest}
    → built http prefix request ≡ ok r
    → request ≡ r
built-eq-ok http prefix request h = elim (Option-cases (http.build request)) [
  | inl fine ↦ ok-injective (rw (fine, built) at h)
  | inr (e, bad) ↦ absurd (ok≢err (sym (rw (bad, built) at h)))
]

module _ (net : NetApi) (http : HttpApi) (c : StatementClient) where
  -- The statement was sent, with the target's token, to the workspace of the target's host, and
  -- the answer is a success.
  pub record IsRun (target : TableTarget) (sql : Text) (out : StatementResponse) : Type 0 where
    pub root : Url
    pub workspace : IsWorkspace net c target.host root
    pub payload : Text
    pub encoded : http.encode_statement (statement_request net http c target sql) ≡ ok payload
    pub response : HttpResponse
    pub sent :
        http.send (
          posted net http
            (at_path net (runes "/api/2.0/sql/statements") root)
            target.bearer_token
            payload)
        ≡ ok response
    pub success : is_failure response ≡ false
    pub decoded :
        decode_bounded max_statement_response_bytes http.decode_statement response ≡ ok out
    pub state :
        (is_empty (upper_state net http out) ≡ true)
        ⊎ (upper_state net http out ≡ runes "SUCCEEDED")

  finished :
      (out : StatementResponse)
      → (not (is_empty (upper_state net http out))
          && not (text_eq (upper_state net http out) (runes "SUCCEEDED")))
        ≡ false
      → (is_empty (upper_state net http out) ≡ true)
        ⊎ (upper_state net http out ≡ runes "SUCCEEDED")
  finished out h = elim (Bool-cases (is_empty (upper_state net http out))) [
    | inl blank ↦ inl blank
    | inr given ↦
        inr ((text_eq_iff (upper_state net http out) (runes "SUCCEEDED")).0 (ground arith))
  ]

  endpoint-eq-ok :
      (host : Text) {endpoint : Text}
      → statement_execution_url net c host ≡ ok endpoint
      → (root : Url) × IsWorkspace net c host root
        × (at_path net (runes "/api/2.0/sql/statements") root ≡ endpoint)
  unfolding statement_execution_url
  endpoint-eq-ok host h =
      let (root, rooted, h1) = >>=-eq-ok (workspace_url net c host) _ h in
      (root, workspace_url-IsWorkspace net c host root rooted, ok-injective h1)

  pub execute_statement-IsRun :
      (target : TableTarget) (sql : Text) (out : StatementResponse)
      → execute_statement net http c target sql ≡ ok out
      → IsRun target sql out
  unfolding execute_statement
  execute_statement-IsRun target sql out h =
      let (_, h1) = reject_if-eq-ok (is_empty (trim_space target.host)) _ _ h in
      let (_, h2) = reject_if-eq-ok (is_empty (trim_space target.warehouse_id)) _ _ h1 in
      let (_, h3) = reject_if-eq-ok (is_empty (trim_space target.bearer_token)) _ _ h2 in
      let (endpoint, located, h4) = >>=-eq-ok (statement_execution_url net c target.host) _ h3 in
      let encode = http.encode_statement (statement_request net http c target sql) in
      let (payload, encoded, h5) =
        >>=-eq-ok (or_wrapped (runes "encode statement request: ") encode) _ h4 in
      let ask = posted net http endpoint target.bearer_token payload in
      let (request, building, h6) =
        >>=-eq-ok (built http (runes "build statement request: ") ask) _ h5 in
      let (response, sending, h7) =
        >>=-eq-ok (or_wrapped (runes "execute statement: ") (http.send request)) _ h6 in
      let (success, h8) = reject_if-eq-ok (is_failure response) _ _ h7 in
      let read = decode_bounded max_statement_response_bytes http.decode_statement response in
      let (answer, decoding, h9) =
        >>=-eq-ok (or_wrapped (runes "decode statement response: ") read) _ h8 in
      let (state, h10) =
        reject_if-eq-ok
          (not (is_empty (upper_state net http answer))
            && not (text_eq (upper_state net http answer) (runes "SUCCEEDED")))
          _ _ h9 in
      let (root, workspace, place) = endpoint-eq-ok target.host located in
      subst (IsRun target sql) (ok-injective h10) (record {
        root = root;
        workspace = workspace;
        payload = payload;
        encoded = or_wrapped-eq-ok (runes "encode statement request: ") encode encoded;
        response = response;
        sent =
            ap (λ url. http.send (posted net http url target.bearer_token payload)) place
            ∙ ap http.send (built-eq-ok http (runes "build statement request: ") ask building)
            ∙ or_wrapped-eq-ok (runes "execute statement: ") (http.send request) sending;
        success = success;
        decoded = or_wrapped-eq-ok (runes "decode statement response: ") read decoding;
        state = finished answer state;
      })

  -- The result: one statement was run for the normalized request, and the statement is the SELECT of
  -- exactly its columns, its table and its limit.
  pub record IsExecuted (target : QueryExecutionTarget) (result : QueryTableResult) : Type 0 where
    pub request : QueryTableRequest
    pub normal : normalize_query_request (execution_request net http target) ≡ ok request
    pub sql : Text
    pub select : IsSelect target.table request.columns request.limit target.allowed_columns sql
    pub out : StatementResponse
    pub run : IsRun (table_target net http target) sql out
    pub bounded :
        IsWithin http.encoded_size max_query_bytes
          (normalize_result_shape (query_result_from_statement out request.table_ref))
          result
    pub holds : HoldsAnswer out result
    pub same_result :
        result
        ≡ bound_query_result http.encoded_size (query_result_from_statement out request.table_ref)

  -- A result of `ExecuteTableQuery` comes of a statement, which an independent reader finds to be
  -- the SELECT of the target's table with the normalized columns and limit; it was sent with the
  -- target's token to the workspace of the target's host and succeeded; and the result is its answer
  -- under the bounds: its columns and rows are the first ones of that answer, normalized, all of them
  -- unless it is marked truncated, each column is one of the manifest, and each value is null or the cell
  -- of its row at the place of a column of that name.
  pub execute_table_query-IsExecuted :
      (target : QueryExecutionTarget) (result : QueryTableResult)
      → execute_table_query net http c target ≡ ok result
      → IsExecuted target result
  unfolding execute_table_query
  execute_table_query-IsExecuted target result h =
      let normalize = normalize_query_request (execution_request net http target) in
      let (request, normal, h1) = >>=-eq-ok (or_query_failure net.quote normalize) _ h in
      let build =
        select_table_sql target.table request.columns request.limit target.allowed_columns in
      let (sql, building, h2) = >>=-eq-ok (or_query_failure net.quote build) _ h1 in
      let (out, running, h3) =
        >>=-eq-ok (execute_statement net http c (table_target net http target) sql) _ h2 in
      let within =
        subst
          (IsWithin http.encoded_size max_query_bytes
            (normalize_result_shape (query_result_from_statement out request.table_ref)))
          (ok-injective h3)
          (bound_query_result-IsWithin http.encoded_size
            (query_result_from_statement out request.table_ref)) in
      record {
        request = request;
        normal = or_query_failure-eq-ok net.quote normalize normal;
        sql = sql;
        select =
            select_table_sql-IsSelect target.table request.columns request.limit
              target.allowed_columns sql (or_query_failure-eq-ok net.quote build building);
        out = out;
        run = execute_statement-IsRun (table_target net http target) sql out running;
        bounded = within;
        holds = IsDrawn-HoldsAnswer out request.table_ref result (
            normalized_part-IsDrawn (query_result_from_statement out request.table_ref) result
              within.part);
        same_result = sym (ok-injective h3);
      }
