-- ===== src/Tests/Endpoint.antt =====
-- Tests of the action endpoint of actions/actions.go: a POST to the orders table.
use provider_databricks.Prelude.{
  ℕ, ◌*◌, ◌^◌, ◌≤◌, ◌≡◌, refl, false, [], ◌∷◌, Option, none, some, arith, Text, runes, ok, pos,
  length,
}
use provider_databricks.Hosts.{trim_of}
use provider_databricks.Backend.Urls.{is_slash}
use provider_databricks.Query.Outcome.{QueryTableResult, text, rounds}
use provider_databricks.Query.Outcome.Drops.{Drop, drop_from}
use provider_databricks.Query.Outcome.Drops.Ends.{Ends, drop_from-Ends}
use provider_databricks.Actions.Paths.{
  Route, parse_action_path, action_path, clean_rooted, unsafe_segment,
}
use provider_databricks.Actions.Paths.Escapes.{IsSafe}
use provider_databricks.Actions.Paths.RoundTrip.{
  IsSafeRoute, parse_action_path-action_path, action_path-parse_action_path,
}
use provider_databricks.Actions.Requests.{
  HttpCall, InputJson, ended, max_action_deadline_ms, action_deadline,
}
use provider_databricks.Actions.Requests.Deadlines.{action_deadline_bounds}
use provider_databricks.Actions.Handler.{Envelope, QueryExecutor, handle}
use provider_databricks.Actions.Handler.Answers.{IsAnswer, handle-IsAnswer}

root-IsSafe : IsSafe (runes "root")
unfolding unsafe_segment
root-IsSafe = refl

tables-IsSafe : IsSafe (runes "tables")
unfolding unsafe_segment
tables-IsSafe = refl

orders-IsSafe : IsSafe (runes "orders")
unfolding unsafe_segment
orders-IsSafe = refl

query-IsSafe : IsSafe (runes "query_table")
unfolding unsafe_segment
query-IsSafe = refl

v1-IsSafe : IsSafe (runes "v1")
unfolding unsafe_segment
v1-IsSafe = refl

abbrev orders_route : Route
orders_route = record {
  cluster_id = runes "root";
  resource = runes "tables";
  name = runes "orders";
  action = runes "query_table";
  version = runes "v1";
}

parse_action_path-action_path_example :
    parse_action_path (
      action_path
        (runes "root")
        (runes "tables")
        (runes "orders")
        (runes "query_table")
        (runes "v1"))
    ≡ ok orders_route
parse_action_path-action_path_example =
    parse_action_path-action_path (runes "root") (runes "tables") (runes "orders")
      (runes "query_table") (runes "v1") root-IsSafe tables-IsSafe orders-IsSafe query-IsSafe
      v1-IsSafe

-- A doubled slash and a dot are cleaned away.
abbrev untidy_path : Text
untidy_path = runes "//actions/clusters/root/./tables/orders//query_table/v1/"

untidy_parsed : parse_action_path untidy_path ≡ ok orders_route
unfolding parse_action_path
untidy_parsed = refl

action_path-parse_action_path_example :
    IsSafeRoute orders_route
    × (clean_rooted (trim_of is_slash untidy_path)
        ≡ action_path
            (runes "root")
            (runes "tables")
            (runes "orders")
            (runes "query_table")
            (runes "v1"))
action_path-parse_action_path_example =
    action_path-parse_action_path untidy_path orders_route untidy_parsed

half_second : action_deadline (runes " 500 ") ≡ ok (500 * 10 ^ 6)
unfolding action_deadline
half_second = refl

action_deadline_bounds_example :
    (10 ^ 6 ≤ 500 * 10 ^ 6) × (500 * 10 ^ 6 ≤ max_action_deadline_ms * 10 ^ 6)
action_deadline_bounds_example = action_deadline_bounds (runes " 500 ") (500 * 10 ^ 6) half_second

abbrev two_rows : QueryTableResult
two_rows = record {
  action_version = runes "v1";
  table_ref = runes "orders";
  columns = record { name = runes "id"; type = runes "STRING" } ∷ [];
  rows = ((runes "id", text (runes "a")) ∷ []) ∷ ((runes "id", text (runes "b")) ∷ []) ∷ [];
  truncated = false;
}

-- One byte for each row.
abbrev size_of : QueryTableResult → Option ℕ
size_of result = some (length result.rows)

drop_from-Ends_example :
    (end : Drop) × (drop_from size_of (rounds two_rows) (λ r. r.truncated) two_rows ≡ some end)
    × Ends (λ r. r.truncated) two_rows end
drop_from-Ends_example =
    drop_from-Ends size_of (rounds two_rows) (λ r. r.truncated) two_rows (omega arith)

abbrev lower_ascii : Text → Text
lower_ascii t = runes "bearer x"

abbrev json : InputJson
json = record {
  decode_wire = λ limit body. ok body;
  after_wire = λ limit body. ended;
  decode_input = λ raw. ok (record { columns = runes "id" ∷ []; limit = pos 5 });
  after_input = λ raw. ended;
}

abbrev runs : HttpCall → Route → Option QueryExecutor
runs call route = some (λ deadline ref input. ok two_rows)

abbrev post : HttpCall
post = record {
  method = runes "POST";
  path = runes "/actions/clusters/root/tables/orders/query_table/v1";
  authorization = runes "Bearer x";
  request_id = runes "r1";
  deadline = [];
  body = runes "{}";
}

abbrev envelope_size : Envelope → Option ℕ
envelope_size env = some 100

post_succeeds : (handle lower_ascii (λ t. t) json size_of envelope_size none runs post).status ≡ 200
unfolding handle
post_succeeds = refl

handle-IsAnswer_example :
    IsAnswer lower_ascii
      (λ t. t)
      json
      size_of
      envelope_size
      none
      runs
      post
      (handle lower_ascii (λ t. t) json size_of envelope_size none runs post)
handle-IsAnswer_example =
    handle-IsAnswer lower_ascii (λ t. t) json size_of envelope_size none runs post post_succeeds
