-- ===== src/Tests/Tools.antt =====
-- Tests of the table resolver of tenant/client.go and of mcpserver/tools.go.
use provider_databricks.Prelude.{
  ℕ, ◌≡◌, refl, false, Bool, [], ◌∷◌, List, Option, some, Text, runes, length, Result, ok,
}
use provider_databricks.Prelude.Maps.{Map}
use provider_databricks.Failure.{Failure}
use provider_databricks.Query.Sql.{TableRef}
use provider_databricks.Query.Outcome.{QueryTableResult, text}
use provider_databricks.Tenant.Resolvers.{TableObject, TableList, TablesClient, Identity}
use provider_databricks.Mcp.{
  OutputJson, TableSummary, sort_summaries, bound_mcp_query_output, bound_mcp_list_output,
}
use provider_databricks.Query.Outcome.{bound_query_result}
use provider_databricks.Query.Outcome.Drawn.{IsDrawn}
use provider_databricks.Mcp.Fitting.{Answers, bound_mcp_query_output-Answers}
use provider_databricks.Mcp.Lists.{Shows, bound_mcp_list_output-Shows}

abbrev orders : TableObject
orders = record {
  name = runes "orders";
  catalog = runes "main";
  schema = runes "sales";
  table = runes "orders";
  raw_columns = [];
  refreshed_at = [];
}

-- A table without a catalog.
abbrev nameless : TableObject
nameless = record orders { name = runes "nameless"; catalog = runes " " }

abbrev orders_ref : TableRef
orders_ref = record { catalog = runes "main"; schema = runes "sales"; table = runes "orders" }

abbrev page : TableList
page = record { items = nameless ∷ orders ∷ []; continue = [] }

abbrev tables_client : TablesClient
tables_client = record { list = λ limit. ok page; get = λ name. ok orders }

abbrev factory : Option ((cluster_id token : Text) → Result Failure TablesClient)
factory = some (λ cluster_id token. ok tables_client)

abbrev caller : Identity
caller = record { tenant = runes "t"; cluster_id = runes "t"; token = runes "x" }

abbrev listed : Map TableRef × Bool
listed = ((runes "orders", orders_ref) ∷ [], false)

-- Every wire message takes 60,000 bytes, with the reserve more than the budget.
abbrev json : OutputJson
json = record {
  encode_query = λ output. some [];
  encode_list = λ output. some [];
  wire_size = λ encoded. some 60000;
}

abbrev one_row : QueryTableResult
one_row = record {
  action_version = runes "v1";
  table_ref = runes "orders";
  columns = record { name = runes "id"; type = runes "STRING" } ∷ [];
  rows = ((runes "id", text (runes "a")) ∷ []) ∷ [];
  truncated = false;
}

abbrev size_of : QueryTableResult → Option ℕ
size_of result = some (length result.rows)

bound_mcp_query_output-Answers_example :
    Answers json size_of
      (runes "orders")
      one_row
      (bound_mcp_query_output json size_of (runes "orders") one_row)
    × IsDrawn one_row (bound_query_result size_of one_row)
bound_mcp_query_output-Answers_example =
    bound_mcp_query_output-Answers json size_of (runes "orders") one_row

abbrev summary_of : Text → TableSummary
summary_of name = record {
  name = name;
  catalog = runes "main";
  schema = runes "sales";
  table = name;
  columns = [];
  schema_refreshed_at = [];
}

abbrev two_tables : List TableSummary
two_tables = summary_of (runes "orders") ∷ summary_of (runes "clients") ∷ []

sorted : sort_summaries two_tables ≡ summary_of (runes "clients") ∷ summary_of (runes "orders") ∷ []
unfolding sort_summaries
sorted = refl

bound_mcp_list_output-Shows_example :
    Shows json (sort_summaries two_tables) false (bound_mcp_list_output json two_tables false)
bound_mcp_list_output-Shows_example = bound_mcp_list_output-Shows json two_tables false
