-- ===== src/Backend/Validation/Tables.antt =====
-- `ValidateTable` of backend/validation.go with the search for the table's summary. The endpoint that
-- the source renders and parses again stays a URL here.
pub mod Found
use provider_databricks.Prelude.{
  ℕ, zero, suc, ◌==◌, if◌then◌else◌, Bool, true, false, not, ◌||◌, List, [], ◌∷◌, ◌++◌, Option,
  none, some, Text, runes, is_empty, text_eq, contains, trim_space, join, Result, ok, err, ◌>>=◌,
  ◌>>◌, reject_if,
}
use provider_databricks.Failure.{
  Failure, plain, table_summary_http_error, unsupported_table_type_error, unsupported_message,
}
use provider_databricks.Failure.Queries.{or_query_failure}
use provider_databricks.Api.{Column}
use provider_databricks.Query.Sql.{TableRef, table_schema_probe_sql}
use provider_databricks.Query.Targets.{TableTarget}
use provider_databricks.Backend.Urls.{
  NetApi, Url, StatementClient, or_wrapped, workspace_url, validate_table_parts,
}
use provider_databricks.Backend.Statement.{
  HttpResponse, HttpApi, is_failure, decode_bounded, ManifestColumn, column_type, execute_statement,
}
use provider_databricks.Backend.Validation.{
  TableSummary, TableSummaries, MetadataApi, with_link, get, max_metadata_response_bytes,
}
use provider_databricks.Backend.Validation.Escapes.{escape_sql_like_literal}

-- The columns that have a name and a type.
unfoldable pub columns_from_manifest : List ManifestColumn → List Column
unfolding column_type trim_space
columns_from_manifest [] = []
columns_from_manifest (column ∷ columns) =
    let rest = columns_from_manifest columns in
    let name = trim_space column.name in
    if is_empty name || is_empty (column_type column)
    then rest
    else record { name = name; type = column_type column; nullable = false; comment = [] } ∷ rest

unfoldable pub find_summary : Text → List TableSummary → Option TableSummary
unfolding text_eq
find_summary full_name [] = none
find_summary full_name (summary ∷ summaries) =
    let rest = find_summary full_name summaries in
    if text_eq summary.full_name full_name then some summary else rest

abbrev pub full_name_of : TableRef → Text
full_name_of ref = join (runes ".") (ref.catalog ∷ ref.schema ∷ ref.table ∷ [])

abbrev not_listed : Failure
not_listed =
    with_link (runes "databricks table summary validation failed: 404 Not Found")
      (table_summary_http_error 404 (runes "404 Not Found"))

module _ (net : NetApi) (http : HttpApi) (metadata : MetadataApi) where
  -- The query of one page; a first page has no token.
  abbrev pub page_query : TableRef → (page_token : Text) → List (Text × Text)
  page_query ref page_token =
      (runes "catalog_name", ref.catalog)
      ∷ (runes "schema_name_pattern", escape_sql_like_literal ref.schema)
      ∷ (runes "table_name_pattern", escape_sql_like_literal ref.table)
      ∷ (runes "max_results", runes "1")
      ∷ (runes "include_manifest_capabilities", runes "false")
      ∷ (if is_empty page_token then [] else (runes "page_token", page_token) ∷ [])

  abbrev pub page_url : Url → TableRef → (page_token : Text) → Text
  page_url root ref page_token = net.render (record root {
    path = runes "/api/2.1/unity-catalog/table-summaries";
    raw_query = net.encode_query (page_query ref page_token);
  })

  unfoldable pub fetch_page : (endpoint token : Text) → Result Failure TableSummaries
  unfolding decode_bounded
  fetch_page endpoint token = do
    response ←
        get net http metadata (runes "build table summary request: ")
          (runes "get databricks table summary: ") endpoint token
    reject_if (is_failure response) (
        with_link (runes "databricks table summary validation failed: " ++ response.status)
          (table_summary_http_error response.status_code response.status))
    or_wrapped (runes "decode table summary response: ")
        (decode_bounded max_metadata_response_bytes metadata.decode_summaries response)

  -- The loop, with the pages that are left, the tokens that were seen and the token of the page.
  unfoldable pub search_pages :
      ℕ
      → (seen : List Text) → (page_token : Text) → Url
      → TableRef
      → Text
      → Result Failure TableSummary
  unfolding fetch_page find_summary contains
  search_pages zero seen page_token root ref token =
      err (plain (runes "databricks table summary pagination exceeded 100 pages"))
  search_pages (suc pages) seen page_token root ref token = do
    page ← fetch_page (page_url root ref page_token) token
    elim (find_summary (full_name_of ref) page.tables) [
      | some summary ↦ ok summary
      | none ↦ do
        reject_if (is_empty page.next_page_token) not_listed
        reject_if (contains page.next_page_token seen)
            (plain (runes "databricks table summary pagination returned a repeated page token"))
        search_pages pages (page.next_page_token ∷ seen) page.next_page_token root ref token
    ]

  unfoldable pub get_table_summary : StatementClient → TableTarget → Result Failure TableSummary
  unfolding search_pages workspace_url validate_table_parts trim_space
  get_table_summary c target = do
    reject_if (is_empty (trim_space target.bearer_token))
        (plain (runes "databricks bearer token is required"))
    validate_table_parts net target.table
    root ← workspace_url net c target.host
    search_pages 100 [] [] root target.table target.bearer_token

  unfoldable pub validate_table : StatementClient → TableTarget → Result Failure (List Column)
  unfolding get_table_summary execute_statement columns_from_manifest table_schema_probe_sql
      trim_space unsupported_message
  validate_table c target = do
    summary ← get_table_summary c target
    reject_if (metadata.equal_fold (trim_space summary.table_type) (runes "METRIC_VIEW")) (
        with_link (unsupported_message net.quote http.to_upper summary.table_type)
          (unsupported_table_type_error summary.table_type))
    sql ← or_query_failure net.quote (table_schema_probe_sql target.table)
    out ← execute_statement net http c target sql
    reject_if (is_empty (columns_from_manifest out.columns))
        (plain (runes "databricks table schema probe returned no columns"))
    ok (columns_from_manifest out.columns)
