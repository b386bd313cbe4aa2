-- ===== src/Tests/Backends.antt =====
-- Tests of backend/ and hostpolicy/ against a small Databricks.
use provider_databricks.Prelude.{
  ◌≡◌, refl, ◌↔◌, false, true, List, [], ◌∷◌, none, some, Text, runes, ok, pos, length, text_eq,
  join,
}
use provider_databricks.Api.{Column}
use provider_databricks.Query.Targets.{TableTarget, QueryExecutionTarget}
use provider_databricks.Query.Outcome.{QueryTableResult, text}
use provider_databricks.Hosts.{allowed_workspace_host}
use provider_databricks.Hosts.Policy.{IsAllowedHost, allowed_workspace_host-IsAllowedHost}
use provider_databricks.Backend.Urls.{Url, NetApi, StatementClient, workspace_url}
use provider_databricks.Backend.Urls.Safety.{IsWorkspace, workspace_url-IsWorkspace}
use provider_databricks.Backend.Statement.{HttpApi, StatementResponse, execute_table_query}
use provider_databricks.Backend.Statement.Runs.{IsExecuted, execute_table_query-IsExecuted}
use provider_databricks.Backend.Validation.{MetadataApi}
use provider_databricks.Backend.Validation.Tables.{validate_table}
use provider_databricks.Backend.Validation.Tables.Found.{IsValidated, validate_table-IsValidated}
use provider_databricks.Backend.Validation.Escapes.{escape_sql_like_literal, like}
use provider_databricks.Backend.Validation.Escapes.Matching.{like-escape_sql_like_literal}

abbrev same : Text → Text
same t = t

abbrev host : Text
host = runes "https://dbc-1.cloud.databricks.com"

abbrev hostname : Text
hostname = runes "dbc-1.cloud.databricks.com"

abbrev net : NetApi
net = record {
  lower = same;
  quote = same;
  environment = [];
  parse = λ t. ok (record {
    scheme = runes "https";
    has_user = false;
    host = hostname;
    hostname = hostname;
    port = [];
    path = [];
    raw_query = [];
    fragment = [];
  });
  is_ip = λ t. false;
  is_loopback_ip = λ t. false;
  join_host_port = λ h p. h;
  render = λ u. u.path;
  path_escape = same;
  encode_query = λ entries. [];
}

abbrev client : StatementClient
client = record {
  wait_timeout = [];
  allowed_workspace_host_suffixes = [];
  allow_insecure_workspace_host = false;
}

abbrev response : StatementResponse
response = record {
  state = runes "SUCCEEDED";
  error_message = [];
  columns =
      record { name = runes "id"; type_name = runes "STRING"; type_text = runes " string " } ∷ [];
  manifest_truncated = false;
  data_array = (text (runes "a") ∷ []) ∷ [];
  result_truncated = false;
}

abbrev http : HttpApi
http = record {
  to_upper = same;
  build = λ request. none;
  send = λ request.
      ok (record { status_code = 200; status = runes "200 OK"; read = λ n. ok (runes "{}") });
  encode_statement = λ request. ok request.statement;
  decode_statement = λ payload. ok response;
  encoded_size = λ result. some (length result.rows);
}

abbrev metadata : MetadataApi
metadata = record {
  decode_object = λ payload. ok [];
  decode_summaries = λ payload. ok (record {
    tables = record { full_name = runes "sales.gold.orders"; table_type = runes "MANAGED" } ∷ [];
    next_page_token = [];
  });
  format_number = same;
  equal_fold = text_eq;
}

allowed_workspace_host-IsAllowedHost_example :
    (allowed_workspace_host same (λ t. false) [] hostname [] ≡ true)
    ↔ IsAllowedHost same (λ t. false) [] hostname []
allowed_workspace_host-IsAllowedHost_example =
    allowed_workspace_host-IsAllowedHost same (λ t. false) [] hostname []

allows_subdomain : allowed_workspace_host same (λ t. false) [] hostname [] ≡ true
unfolding allowed_workspace_host
allows_subdomain = refl

refuses_other :
    allowed_workspace_host same (λ t. false) [] (runes "evilazuredatabricks.net") [] ≡ false
unfolding allowed_workspace_host
refuses_other = refl

abbrev root : Url
root = record { scheme = runes "https"; host = hostname; path = []; raw_query = [] }

workspace_root : workspace_url net client host ≡ ok root
unfolding workspace_url
workspace_root = refl

workspace_url-IsWorkspace_example : IsWorkspace net client host root
workspace_url-IsWorkspace_example = workspace_url-IsWorkspace net client host root workspace_root

abbrev query_target : QueryExecutionTarget
query_target = record {
  table = record { catalog = runes "sales"; schema = runes "gold"; table = runes "orders" };
  connection_name = runes "main";
  host = host;
  auth_type = runes "pat";
  warehouse_name = runes "small";
  warehouse_id = runes "0123456789abcdef";
  bearer_token = runes "secret";
  projection = runes "id" ∷ [];
  limit = pos 5;
  allowed_columns = runes "id" ∷ [];
}

abbrev answer : QueryTableResult
answer = record {
  action_version = runes "v1";
  table_ref = runes "table";
  columns = record { name = runes "id"; type = runes "string" } ∷ [];
  rows = ((runes "id", text (runes "a")) ∷ []) ∷ [];
  truncated = false;
}

executes : execute_table_query net http client query_target ≡ ok answer
unfolding execute_table_query
executes = refl

execute_table_query-IsExecuted_example : IsExecuted net http client query_target answer
execute_table_query-IsExecuted_example =
    execute_table_query-IsExecuted net http client query_target answer executes

like-escape_sql_like_literal_example :
    (like (escape_sql_like_literal (runes "a_b%")) (runes "axb%") ≡ true)
    ↔ (runes "axb%" ≡ runes "a_b%")
like-escape_sql_like_literal_example = like-escape_sql_like_literal (runes "a_b%") (runes "axb%")

abbrev table_target : TableTarget
table_target = record {
  table = record { catalog = runes "sales"; schema = runes "gold"; table = runes "orders" };
  connection_name = runes "main";
  host = host;
  auth_type = runes "pat";
  warehouse_name = runes "small";
  warehouse_id = runes "0123456789abcdef";
  bearer_token = runes "secret";
}

abbrev found : List Column
found = record { name = runes "id"; type = runes "string"; nullable = false; comment = [] } ∷ []

validates : validate_table net http metadata client table_target ≡ ok found
unfolding validate_table join
validates = refl

validate_table-IsValidated_example : IsValidated net http metadata client table_target found
validate_table-IsValidated_example =
    validate_table-IsValidated net http metadata client table_target found validates
