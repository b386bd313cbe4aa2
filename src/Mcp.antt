-- ===== src/Mcp.antt =====
-- mcpserver/tools.go: the three tools and the bounds on what they answer.
pub mod Server
pub mod Fitting
pub mod Lists
use provider_databricks.Prelude.{
  ℕ, zero, suc, ◌+◌, ◌*◌, ltb, leb, ◌==◌, if◌then◌else◌, Bool, true, false, not, ◌||◌, List, [],
  ◌∷◌, ◌++◌, Option, none, some, map, Text, runes, is_empty, length, take, init, Result, ok, err,
  ◌>>=◌, ◌>>◌, reject_if, ℤ, pos, negsuc,
}
use provider_databricks.Prelude.Maps.{Map, lookup, put, keys}
use provider_databricks.Failure.{Failure, plain}
use provider_databricks.Failure.Queries.{or_query_failure}
use provider_databricks.Query.Request.{
  action_version_v1, QueryTableRequest, normalize_query_request,
}
use provider_databricks.Query.Sql.{TableRef}
use provider_databricks.Query.Outcome.{
  QueryColumn, Row, QueryTableResult, bound_query_result, max_query_bytes, rounds,
}
use provider_databricks.Query.Outcome.Drops.{Drop, fitted, exhausted, drop_from}
use provider_databricks.Tenant.Query.{QueryInput}
use provider_databricks.Tenant.Resolvers.{max_table_list_items, list_limit}
use provider_databricks.Actions.Handler.{ResourceRef, table_resource}

pub record TableSummary : Type 0 where
  pub name : Text
  pub catalog : Text
  pub schema : Text
  pub table : Text
  pub columns : List QueryColumn
  pub schema_refreshed_at : Text

pub record ListTablesOutput : Type 0 where
  pub tables : List TableSummary
  pub truncated : Bool

pub record QueryTableInput : Type 0 where
  pub action_version : Text
  pub table_ref : Text
  pub columns : List Text
  pub limit : ℤ

pub record QueryTableOutput : Type 0 where
  pub action_version : Text
  pub table_ref : Text
  pub columns : List QueryColumn
  pub rows : List Row
  pub truncated : Bool

-- `maxMCPRequestBytes` of mcpserver/server.go.
abbrev pub max_mcp_request_bytes : ℕ
max_mcp_request_bytes = 8 * 1024

abbrev pub mcp_envelope_reserve_bytes : ℕ
mcp_envelope_reserve_bytes = max_mcp_request_bytes + 4 * 1024

-- What `json.Marshal` makes of the outputs; `wire_size` is the length of the tool result around the
-- encoded output. An error is `none`.
pub record OutputJson : Type 0 where
  pub encode_query : QueryTableOutput → Option Text
  pub encode_list : ListTablesOutput → Option Text
  pub wire_size : Text → Option ℕ

-- The order of `<` on strings, for names without stray bytes.
unfoldable pub text_less : Text → Text → Bool
text_less s [] = false
text_less [] (d ∷ t) = true
text_less (c ∷ s) (d ∷ t) =
    let rest = text_less s t in if ltb c d then true else if c == d then rest else false

-- `sort.Strings`
unfoldable pub insert_text : Text → List Text → List Text
unfolding text_less
insert_text s [] = s ∷ []
insert_text s (t ∷ ts) =
    let rest = insert_text s ts in if text_less t s then t ∷ rest else s ∷ t ∷ ts

unfoldable pub sort_texts : List Text → List Text
unfolding insert_text
sort_texts [] = []
sort_texts (s ∷ ss) = insert_text s (sort_texts ss)

-- `sort.Slice` by name.
unfoldable pub insert_summary : TableSummary → List TableSummary → List TableSummary
unfolding text_less
insert_summary s [] = s ∷ []
insert_summary s (t ∷ ts) =
    let rest = insert_summary s ts in if text_less t.name s.name then t ∷ rest else s ∷ t ∷ ts

unfoldable pub sort_summaries : List TableSummary → List TableSummary
unfolding insert_summary
sort_summaries [] = []
sort_summaries (s ∷ ss) = insert_summary s (sort_summaries ss)

-- `bounded[name] = tables[name]` for each name.
unfoldable pub pick : Map TableRef → List Text → Map TableRef → Map TableRef
unfolding lookup put
pick tables [] bounded = bounded
pick tables (name ∷ names) bounded = elim (lookup name tables) [
  | none ↦ pick tables names bounded
  | some ref ↦ pick tables names (put name ref bounded)
]

unfoldable pub bounded_table_map : Map TableRef → ℤ → Map TableRef × Bool
unfolding pick sort_texts
bounded_table_map tables limit =
    let most = list_limit limit in
    if leb (length tables) most
    then (tables, false)
    else (pick tables (take most (sort_texts (keys tables))) [], true)

module _ (json : OutputJson) where
  abbrev wrapped_size : Option Text → Option ℕ
  wrapped_size none = none
  wrapped_size (some encoded) = elim (json.wire_size encoded) [
    | none ↦ none
    | some n ↦ some (n + mcp_envelope_reserve_bytes)
  ]

  unfoldable pub mcp_query_envelope_bytes : QueryTableOutput → Option ℕ
  mcp_query_envelope_bytes output = wrapped_size (json.encode_query output)

  unfoldable pub mcp_list_envelope_bytes : ListTablesOutput → Option ℕ
  mcp_list_envelope_bytes output = wrapped_size (json.encode_list output)

  abbrev pub within_budget : Option ℕ → Bool
  within_budget none = false
  within_budget (some size) = leb size max_query_bytes

  abbrev pub query_output : Text → QueryTableResult → QueryTableOutput
  query_output table_ref result = record {
    action_version = action_version_v1;
    table_ref = table_ref;
    columns = result.columns;
    rows = result.rows;
    truncated = result.truncated;
  }

  abbrev pub smallest_output : Text → QueryTableOutput
  smallest_output table_ref = record {
    action_version = action_version_v1;
    table_ref = table_ref;
    columns = [];
    rows = [];
    truncated = true;
  }

  abbrev pub fits_query : Text → QueryTableResult → Bool
  fits_query table_ref result =
      within_budget (mcp_query_envelope_bytes (query_output table_ref result))

  abbrev pub output_of : Text → Option Drop → QueryTableOutput
  output_of table_ref (some (fitted result)) = query_output table_ref result
  output_of table_ref (some exhausted) = smallest_output table_ref
  output_of table_ref none = smallest_output table_ref

  -- `encoded_size` is the length of an encoded result.
  unfoldable pub bound_mcp_query_output :
      (encoded_size : QueryTableResult → Option ℕ) → Text → QueryTableResult → QueryTableOutput
  unfolding bound_query_result drop_from mcp_query_envelope_bytes
  bound_mcp_query_output encoded_size table_ref result =
      let bounded = bound_query_result encoded_size result in
      output_of table_ref (drop_from encoded_size (rounds bounded) (fits_query table_ref) bounded)

  abbrev pub fits_list : ListTablesOutput → Bool
  fits_list output = within_budget (mcp_list_envelope_bytes output)

  -- The loop, with fuel; `none` means that the fuel ran out.
  unfoldable pub bound_list_from : ℕ → ListTablesOutput → Option ListTablesOutput
  unfolding mcp_list_envelope_bytes
  bound_list_from zero output = none
  bound_list_from (suc fuel) output = elim (fits_list output) [
    | true ↦ some output
    | false ↦ elim (is_empty output.tables) [
      | true ↦ some (record { tables = []; truncated = true })
      | false ↦ bound_list_from fuel (record { tables = init output.tables; truncated = true })
    ]
  ]

  abbrev pub or_nothing : Option ListTablesOutput → ListTablesOutput
  or_nothing (some output) = output
  or_nothing none = record { tables = []; truncated = true }

  unfoldable pub bound_mcp_list_output : List TableSummary → (truncated : Bool) → ListTablesOutput
  unfolding bound_list_from sort_summaries
  bound_mcp_list_output tables truncated = or_nothing (
      bound_list_from (suc (length tables))
        (record { tables = sort_summaries tables; truncated = truncated }))

-- A `TableResolver`, with the methods that it may have besides.
pub record Resolver : Type 0 where
  pub list_tables : Result Failure (Map TableRef)
  pub list_tables_bounded : Option (ℤ → Result Failure (Map TableRef × Bool))
  pub get_table : Text → Result Failure (Option TableRef)
  pub get_table_schema : Option (Text → Result Failure (List QueryColumn × Text))

abbrev pub unmarked : Result Failure (Map TableRef) → Result Failure (Map TableRef × Bool)
unmarked (ok tables) = ok (tables, false)
unmarked (err e) = err e

abbrev pub found_tables : Resolver → Result Failure (Map TableRef × Bool)
found_tables resolver = elim resolver.list_tables_bounded [
  | some bounded ↦ bounded (pos max_table_list_items)
  | none ↦ unmarked resolver.list_tables
]

abbrev summary : Text → TableRef → TableSummary
summary name ref = record {
  name = name;
  catalog = ref.catalog;
  schema = ref.schema;
  table = ref.table;
  columns = [];
  schema_refreshed_at = [];
}

abbrev pub summaries : Map TableRef → List TableSummary
summaries [] = []
summaries ((name, ref) ∷ tables) = summary name ref ∷ summaries tables

-- `list_tables`
unfoldable pub list_tables_tool : OutputJson → Resolver → Result Failure ListTablesOutput
unfolding bounded_table_map bound_mcp_list_output
list_tables_tool json resolver = do
  found ← found_tables resolver
  let bounded = bounded_table_map found.0 (pos max_table_list_items)
  ok (bound_mcp_list_output json (summaries bounded.0) (found.1 || bounded.1))

abbrev with_schema : TableSummary → Result Failure (List QueryColumn × Text) → TableSummary
with_schema s (ok found) = record s { columns = found.0; schema_refreshed_at = found.1 }
with_schema s (err _) = s

-- `describe_table`; `quote` is the verb `%q`.
unfoldable pub describe_table_tool :
    (quote : Text → Text) → Resolver → Text → Result Failure TableSummary
describe_table_tool quote resolver table_ref = do
  found ← resolver.get_table table_ref
  elim found [
    | none ↦ err (plain (runes "tableRef " ++ (quote table_ref ++ runes " not found")))
    | some ref ↦ elim resolver.get_table_schema [
      | none ↦ ok (summary table_ref ref)
      | some read_schema ↦ ok (with_schema (summary table_ref ref) (read_schema table_ref))
    ]
  ]

-- `query_table`
unfoldable pub query_table_tool :
    (quote : Text → Text)
    → OutputJson
    → (encoded_size : QueryTableResult → Option ℕ)
    → Option (ResourceRef → QueryInput → Result Failure QueryTableResult)
    → QueryTableInput
    → Result Failure QueryTableOutput
unfolding normalize_query_request bound_mcp_query_output
query_table_tool quote json encoded_size executor input = do
  request ← or_query_failure quote (
      normalize_query_request (record {
        action_version = input.action_version;
        table_ref = input.table_ref;
        columns = input.columns;
        limit = input.limit;
      }))
  elim executor [
    | none ↦ err (plain (runes "databricks table query is unavailable"))
    | some execute ↦ do
      result ←
          execute (table_resource request.table_ref)
            (record { columns = request.columns; limit = request.limit })
      ok (bound_mcp_query_output json encoded_size request.table_ref result)
  ]
