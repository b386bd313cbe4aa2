-- ===== src/Tests/Queries.antt =====
-- Tests of queryapi/query.go, most of them after queryapi/query_test.go.
use provider_databricks.Prelude.{
  suc, ◌+◌, some, ◌*◌, ℕ, ◌≡◌, refl, false, List, [], ◌∷◌, Option, none, some, Text, runes, ok, err,
  pos, negsuc, length,
}
use provider_databricks.Query.Identifier.{quote_ident}
use provider_databricks.Query.Errors.{limit_out_of_range, duplicate_column, not_in_schema}
use provider_databricks.Query.Request.{normalize_query_controls, default_limit}
use provider_databricks.Query.Request.Controls.{
  IsProjection, IsLimit, normalize_query_controls_sound, normalize_query_controls_complete,
}
use provider_databricks.Query.Sql.{TableRef, select_table_sql}
use provider_databricks.Query.Sql.Parsing.{IsSelect, select_table_sql-IsSelect}
use provider_databricks.Query.Outcome.{
  text, QueryTableResult, bound_query_result_within, normalize_result_shape, byte_budget,
}
use provider_databricks.Query.Outcome.{bound_from}
use provider_databricks.Query.Outcome.Drawn.{IsDrawn}
use provider_databricks.Query.Outcome.Bounds.{IsWithin, bound_query_result_within-IsWithin}
use provider_databricks.Query.Outcome.Kept.{KeepsRows, bound_query_result_within-keeps}

abbrev orders : TableRef
orders = record { catalog = runes "sales"; schema = runes "gold"; table = runes "a`b" }

abbrev two_columns : List Text
two_columns = runes "id" ∷ runes "unit price" ∷ []

abbrev orders_sql : Text
orders_sql = runes "SELECT `id`, `unit price` FROM `sales`.`gold`.`a``b` LIMIT 5"

builds_orders : select_table_sql orders two_columns (pos 5) [] ≡ ok orders_sql
unfolding select_table_sql
builds_orders = refl

refuses_unknown_column :
    select_table_sql orders two_columns (pos 5) (runes "id" ∷ [])
    ≡ err (not_in_schema (runes "unit price"))
unfolding select_table_sql
refuses_unknown_column = refl

refuses_control : quote_ident (runes "order\n drop") ≡ none
unfolding quote_ident
refuses_control = refl

select_table_sql-IsSelect_example : IsSelect orders two_columns (pos 5) [] orders_sql
select_table_sql-IsSelect_example =
    select_table_sql-IsSelect orders two_columns (pos 5) [] orders_sql builds_orders

accepts_two : normalize_query_controls two_columns (pos 0) ≡ ok (two_columns, pos 100)
unfolding normalize_query_controls
accepts_two = refl

refuses_twice :
    normalize_query_controls (runes "id" ∷ runes "id" ∷ []) (pos 0) ≡ err (duplicate_column 1)
unfolding normalize_query_controls
refuses_twice = refl

refuses_negative : normalize_query_controls [] (negsuc 0) ≡ err limit_out_of_range
unfolding normalize_query_controls
refuses_negative = refl

two_columns-IsProjection : IsProjection two_columns × IsLimit (pos 0)
two_columns-IsProjection =
    let (_, _, p, l) =
      normalize_query_controls_sound two_columns (pos 0) two_columns (pos 100) accepts_two in
    (p, l)

normalize_query_controls_sound_example :
    (two_columns ≡ two_columns)
    × (pos 100 ≡ default_limit (pos 0))
    × IsProjection two_columns
    × IsLimit (pos 0)
normalize_query_controls_sound_example =
    normalize_query_controls_sound two_columns (pos 0) two_columns (pos 100) accepts_two

normalize_query_controls_complete_example :
    normalize_query_controls two_columns (pos 0) ≡ ok (two_columns, default_limit (pos 0))
normalize_query_controls_complete_example =
    normalize_query_controls_complete two_columns (pos 0) two_columns-IsProjection.0
      two_columns-IsProjection.1

-- A size that counts ten bytes for each row.
abbrev ten_a_row : QueryTableResult → Option ℕ
ten_a_row r = some (length r.rows * 10)

abbrev three_rows : QueryTableResult
three_rows = record {
  action_version = runes "v1";
  table_ref = runes "orders";
  columns = record { name = runes "id"; type = runes "STRING" } ∷ [];
  rows =
      ((runes "id", text (runes "a")) ∷ [])
      ∷ ((runes "id", text (runes "b")) ∷ [])
      ∷ ((runes "id", text (runes "c")) ∷ [])
      ∷ [];
  truncated = false;
}

drops_rows : length (bound_query_result_within ten_a_row three_rows (pos 25)).rows ≡ 2
unfolding bound_query_result_within
drops_rows = refl

bound_query_result_within-IsWithin_example :
    (bound_from ten_a_row
        (suc (
          length (normalize_result_shape three_rows).rows
          + length (normalize_result_shape three_rows).columns))
        (byte_budget (pos 25))
        (normalize_result_shape three_rows)
      ≡ some (bound_query_result_within ten_a_row three_rows (pos 25)))
    × IsWithin ten_a_row
        (byte_budget (pos 25))
        (normalize_result_shape three_rows)
        (bound_query_result_within ten_a_row three_rows (pos 25))
    × IsDrawn three_rows (bound_query_result_within ten_a_row three_rows (pos 25))
bound_query_result_within-IsWithin_example =
    bound_query_result_within-IsWithin ten_a_row three_rows (pos 25)

bound_query_result_within-keeps_example :
    ((bound_query_result_within ten_a_row three_rows (pos 40)).columns ≡ three_rows.columns)
    × KeepsRows three_rows.columns three_rows.rows
        (bound_query_result_within ten_a_row three_rows (pos 40)).rows
unfolding bound_query_result_within
bound_query_result_within-keeps_example =
    bound_query_result_within-keeps ten_a_row three_rows (pos 40) refl
