-- ===== src/Backend/Validation/Tables/Found.antt =====
-- What stands behind the columns of a validated table.
use provider_databricks.Prelude.{
  ℕ, zero, suc, false, ◌||◌, List, [], ◌∷◌, some, Text, runes, is_empty, text_eq, text_eq_iff,
  contains, trim_space, ok, ◌≡◌, refl, sym, ap, ◌∙◌, arith, >>=-eq-ok, reject_if-eq-ok,
  ok-injective, Bool-cases, Option-cases, some-injective, inl, inr, subst, All, ◌⊎◌,
}
use provider_databricks.Failure.Queries.{or_query_failure, or_query_failure-eq-ok}
use provider_databricks.Api.{Column}
use provider_databricks.Query.Sql.{TableRef, table_schema_probe_sql}
use provider_databricks.Query.Targets.{TableTarget}
use provider_databricks.Backend.Urls.{
  NetApi, Url, StatementClient, workspace_url, validate_table_parts,
}
use provider_databricks.Backend.Urls.Safety.{
  IsWorkspace, workspace_url-IsWorkspace, or_wrapped-eq-ok,
}
use provider_databricks.Backend.Statement.{
  HttpApi, HttpResponse, built, is_failure, decode_bounded, StatementResponse, ManifestColumn,
  column_type, execute_statement,
}
use provider_databricks.Backend.Statement.Runs.{IsRun, built-eq-ok, execute_statement-IsRun}
use provider_databricks.Backend.Validation.{
  TableSummary, TableSummaries, MetadataApi, fetched, get, max_metadata_response_bytes,
}
use provider_databricks.Backend.Validation.Tables.{
  columns_from_manifest, find_summary, full_name_of, page_url, fetch_page, search_pages,
  get_table_summary, validate_table,
}

abbrev pub IsSummary : TableSummary → List TableSummary → Type 0
IsSummary s [] = ⊥
IsSummary s (x ∷ xs) = (s ≡ x) ⊎ IsSummary s xs

find_summary-IsSummary :
    (name : Text) (summaries : List TableSummary) (s : TableSummary)
    → find_summary name summaries ≡ some s
    → IsSummary s summaries × (s.full_name ≡ name)
unfolding find_summary
find_summary-IsSummary name [] s h = cc
find_summary-IsSummary name (x ∷ xs) s h = elim (Bool-cases (text_eq x.full_name name)) [
  | inl same ↦
      let here : x ≡ s = some-injective (rw (same, find_summary) at h) in
      (
        inl (sym here),
        sym (ap (λ (y : TableSummary). y.full_name) here) ∙ (text_eq_iff x.full_name name).0 same,
      )
  | inr other ↦
      let (there, named) = find_summary-IsSummary name xs s (rw (other, find_summary) at h) in
      (inr there, named)
]

abbrev IsColumn : Column → Type 0
IsColumn column = (is_empty column.name ≡ false) × (is_empty column.type ≡ false)

columns_from_manifest-IsColumn :
    (columns : List ManifestColumn) → All IsColumn (columns_from_manifest columns)
unfolding columns_from_manifest
columns_from_manifest-IsColumn [] = tt
columns_from_manifest-IsColumn (c ∷ cs) =
    elim (Bool-cases (is_empty (trim_space c.name) || is_empty (column_type c))) [
      | inl skipped ↦ rw (skipped, columns_from_manifest) (columns_from_manifest-IsColumn cs)
      | inr kept ↦
          rw (kept, columns_from_manifest)
            ((ground arith, ground arith), columns_from_manifest-IsColumn cs)
    ]

module _ (net : NetApi) (http : HttpApi) (metadata : MetadataApi) where
  -- A page of the catalog: the answer, with success, to a GET of its address with the token.
  pub record IsPage (root : Url) (ref : TableRef) (token page_token : Text) (page : TableSummaries)
      : Type 0 where
    pub response : HttpResponse
    pub sent :
        http.send (fetched (page_url net http metadata root ref page_token) token) ≡ ok response
    pub success : is_failure response ≡ false
    pub decoded :
        decode_bounded max_metadata_response_bytes metadata.decode_summaries response ≡ ok page

  -- The tokens of the first page and of the pages that follow it.
  pub data IsReached (root : Url) (ref : TableRef) (token : Text) : Text → Type 0 where
    first : IsReached root ref token []
    following :
        (page_token : Text) (page : TableSummaries)
        → IsReached root ref token page_token
        → IsPage root ref token page_token page
        → IsReached root ref token page.next_page_token

  -- A page of the catalog that lists the summary, under the full name of the table.
  pub record IsListed (root : Url) (ref : TableRef) (token : Text) (summary : TableSummary)
      : Type 0 where
    pub page_token : Text
    pub page : TableSummaries
    pub reached : IsReached root ref token page_token
    pub answered : IsPage root ref token page_token page
    pub on_page : IsSummary summary page.tables
    pub same_name : summary.full_name ≡ full_name_of ref

  fetch_page-IsPage :
      (root : Url) (ref : TableRef) (token page_token : Text) (page : TableSummaries)
      → fetch_page net http metadata (page_url net http metadata root ref page_token) token
        ≡ ok page
      → IsPage root ref token page_token page
  unfolding fetch_page
  fetch_page-IsPage root ref token page_token page h =
      let ask = fetched (page_url net http metadata root ref page_token) token in
      let building = built http (runes "build table summary request: ") ask in
      let (response, getting, h1) =
        >>=-eq-ok
          (get net http metadata (runes "build table summary request: ")
            (runes "get databricks table summary: ")
            (page_url net http metadata root ref page_token) token)
          _ h in
      let (request, fine, sending) = >>=-eq-ok building _ getting in
      let (success, h2) = reject_if-eq-ok (is_failure response) _ _ h1 in
      let read = decode_bounded max_metadata_response_bytes metadata.decode_summaries response in
      record {
        response = response;
        sent =
            ap http.send (built-eq-ok http (runes "build table summary request: ") ask fine)
            ∙ or_wrapped-eq-ok (runes "get databricks table summary: ") (http.send request) sending;
        success = success;
        decoded = or_wrapped-eq-ok (runes "decode table summary response: ") read h2;
      }

  search_pages-IsListed :
      (pages : ℕ) (seen : List Text) (page_token : Text) (root : Url) (ref : TableRef)
      (token : Text) (s : TableSummary)
      → IsReached root ref token page_token
      → search_pages net http metadata pages seen page_token root ref token ≡ ok s
      → IsListed root ref token s
  unfolding search_pages
  search_pages-IsListed zero seen page_token root ref token s reached h = cc
  search_pages-IsListed (suc pages) seen page_token root ref token s reached h =
      let url = page_url net http metadata root ref page_token in
      let (page, fetching, h1) = >>=-eq-ok (fetch_page net http metadata url token) _ h in
      let answered = fetch_page-IsPage root ref token page_token page fetching in
      elim (Option-cases (find_summary (full_name_of ref) page.tables)) [
        | inr (found, e) ↦
            let (there, named) = find_summary-IsSummary (full_name_of ref) page.tables found e in
            subst (IsListed root ref token) (ok-injective (rw (e) at h1)) (record {
              page_token = page_token;
              page = page;
              reached = reached;
              answered = answered;
              on_page = there;
              same_name = named;
            })
        | inl missing ↦
            let (_, h2) =
              reject_if-eq-ok (is_empty page.next_page_token) _ _ (rw (missing) at h1) in
            let (_, h3) = reject_if-eq-ok (contains page.next_page_token seen) _ _ h2 in
            search_pages-IsListed pages (page.next_page_token ∷ seen) page.next_page_token root ref
              token s (following page_token page reached answered) h3
      ]

  -- The catalog lists the table under its full name, as a type that is no metric view; and the columns
  -- are those of the probe that was run on the target's warehouse.
  pub record IsValidated (c : StatementClient) (target : TableTarget) (columns : List Column)
      : Type 0 where
    pub summary : TableSummary
    pub root : Url
    pub workspace : IsWorkspace net c target.host root
    pub listed : IsListed root target.table target.bearer_token summary
    pub plain_type :
        metadata.equal_fold (trim_space summary.table_type) (runes "METRIC_VIEW") ≡ false
    pub sql : Text
    pub probe : table_schema_probe_sql target.table ≡ ok sql
    pub out : StatementResponse
    pub run : IsRun net http c target sql out
    pub from_manifest : columns ≡ columns_from_manifest out.columns
    pub some_column : is_empty columns ≡ false
    pub named : All IsColumn columns

  get_table_summary-IsListed :
      (c : StatementClient) (target : TableTarget) (s : TableSummary)
      → get_table_summary net http metadata c target ≡ ok s
      → (root : Url) × IsWorkspace net c target.host root
        × IsListed root target.table target.bearer_token s
  unfolding get_table_summary
  get_table_summary-IsListed c target s h =
      let (_, h1) = reject_if-eq-ok (is_empty (trim_space target.bearer_token)) _ _ h in
      let (_, _, h2) = >>=-eq-ok (validate_table_parts net target.table) _ h1 in
      let (root, rooted, h3) = >>=-eq-ok (workspace_url net c target.host) _ h2 in
      (
        root,
        workspace_url-IsWorkspace net c target.host root rooted,
        search_pages-IsListed 100 [] [] root target.table target.bearer_token s first h3,
      )

  -- Columns that `ValidateTable` returns: a page of the catalog, the first or one that follows it, which
  -- the workspace of the target's host answered with success to the target's token, lists the table under
  -- exactly its full name and not as a metric view; the probe of that table ran with success on that
  -- workspace; and the columns are those of its manifest, at least one, each with a name and a type.
  pub validate_table-IsValidated :
      (c : StatementClient) (target : TableTarget) (columns : List Column)
      → validate_table net http metadata c target ≡ ok columns
      → IsValidated c target columns
  unfolding validate_table
  validate_table-IsValidated c target columns h =
      let (summary, finding, h1) = >>=-eq-ok (get_table_summary net http metadata c target) _ h in
      let (root, workspace, listed) = get_table_summary-IsListed c target summary finding in
      let (plain_type, h2) =
        reject_if-eq-ok (metadata.equal_fold (trim_space summary.table_type) (runes "METRIC_VIEW"))
          _ _ h1 in
      let (sql, building, h3) =
        >>=-eq-ok (or_query_failure net.quote (table_schema_probe_sql target.table)) _ h2 in
      let (out, running, h4) = >>=-eq-ok (execute_statement net http c target sql) _ h3 in
      let (filled, h5) = reject_if-eq-ok (is_empty (columns_from_manifest out.columns)) _ _ h4 in
      subst (IsValidated c target) (ok-injective h5) (record {
        summary = summary;
        root = root;
        workspace = workspace;
        listed = listed;
        plain_type = plain_type;
        sql = sql;
        probe = or_query_failure-eq-ok net.quote (table_schema_probe_sql target.table) building;
        out = out;
        run = execute_statement-IsRun net http c target sql out running;
        from_manifest = refl;
        some_column = filled;
        named = columns_from_manifest-IsColumn out.columns;
      })
