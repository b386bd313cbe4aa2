-- ===== src/Query/Sql.antt =====
-- The statements that queryapi/query.go builds: `qualifiedTable`, `TableSchemaProbeSQL`,
-- `DescribeTableSQL` and `SelectTableSQL`.
pub mod Reader
pub mod Reading
pub mod Parsing
use provider_databricks.Prelude.{
  ℕ, ◌+◌, ltb, if◌then◌else◌, Bool, true, false, not, ◌&&◌, List, [], ◌∷◌, ◌++◌, Option, none, some,
  Text, runes, length, is_empty, contains, trim_space, select, ℤ, itoa_int, join, Result, ok, err,
  ◌>>=◌, ◌>>◌, reject_if,
}
use provider_databricks.Query.Errors.{
  QueryError, limit_out_of_range, invalid_column, too_many_projected, invalid_part, not_in_schema,
  selected_twice,
}
use provider_databricks.Query.Identifier.{quote_ident}
use provider_databricks.Query.Request.{default_limit, limit_rejected, max_query_columns}

pub record TableRef : Type 0 where
  pub catalog : Text
  pub schema : Text
  pub table : Text

-- `quoteIdent` with the caller's error.
abbrev pub quoted_or : Text → QueryError → Result QueryError Text
quoted_or value e = elim (quote_ident value) [ none ↦ err e | some q ↦ ok q ]

unfoldable pub qualified_table : TableRef → Result QueryError Text
unfolding quote_ident
qualified_table ref = do
  catalog ← quoted_or ref.catalog (invalid_part (runes "catalog") ref.catalog)
  schema ← quoted_or ref.schema (invalid_part (runes "schema") ref.schema)
  table ← quoted_or ref.table (invalid_part (runes "table") ref.table)
  ok (catalog ++ (runes "." ++ (schema ++ (runes "." ++ table))))

unfoldable pub table_schema_probe_sql : TableRef → Result QueryError Text
unfolding qualified_table
table_schema_probe_sql ref = do
  from ← qualified_table ref
  ok (runes "SELECT * FROM " ++ (from ++ runes " LIMIT 0"))

unfoldable pub describe_table_sql : TableRef → Result QueryError Text
unfolding qualified_table
describe_table_sql ref = do from ← qualified_table ref; ok (runes "DESCRIBE TABLE " ++ from)

-- The set `allowed`, of the columns that are not blank.
unfoldable pub allowed_set : List Text → List Text
unfolding trim_space
allowed_set = select (λ column. not (is_empty (trim_space column)))

-- The loop over the projection, from index `i`.
unfoldable pub select_parts :
    (allowed : List Text) → ℕ → (seen : List Text) → List Text → Result QueryError (List Text)
unfolding quote_ident contains
select_parts allowed i seen [] = ok []
select_parts allowed i seen (column ∷ columns) = do
  part ← quoted_or column (invalid_column i)
  reject_if (not (is_empty allowed) && not (contains column allowed)) (not_in_schema column)
  reject_if (contains column seen) (selected_twice column)
  parts ← select_parts allowed (i + 1) (column ∷ seen) columns
  ok (part ∷ parts)

unfoldable pub select_list : (allowed projection : List Text) → Result QueryError Text
unfolding select_parts join
select_list allowed [] = ok (runes "*")
select_list allowed (column ∷ columns) = do
  parts ← select_parts allowed 0 [] (column ∷ columns)
  ok (join (runes ", ") parts)

unfoldable pub select_table_sql : TableRef → List Text → ℤ → List Text → Result QueryError Text
unfolding qualified_table select_list allowed_set itoa_int
select_table_sql ref projection limit allowed_columns = do
  let limit' = default_limit limit
  reject_if (limit_rejected limit') limit_out_of_range
  reject_if (ltb max_query_columns (length projection)) too_many_projected
  from ← qualified_table ref
  list ← select_list (allowed_set allowed_columns) projection
  ok (
      runes "SELECT "
      ++ (list ++ (runes " FROM " ++ (from ++ (runes " LIMIT " ++ itoa_int limit')))))
