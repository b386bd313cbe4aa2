-- ===== src/Query/Errors.antt =====
-- The errors of queryapi/query.go. `not_in_schema` is the `ValidationError` with the code
-- schema_projection_invalid; the others are plain errors.
use provider_databricks.Prelude.{ℕ, Text, runes, ◌++◌, itoa}

pub data QueryError : Type 0 where
  limit_out_of_range : QueryError
  too_many_columns : QueryError
  invalid_column : ℕ → QueryError
  duplicate_column : ℕ → QueryError
  unsupported_action_version : Text → QueryError
  invalid_table_ref : QueryError
  too_many_projected : QueryError
  invalid_part : (label value : Text) → QueryError
  not_in_schema : Text → QueryError
  selected_twice : Text → QueryError

-- `Error()`; `quote` is the verb `%q`.
unfoldable pub error_text : (quote : Text → Text) → QueryError → Text
unfolding itoa
error_text quote limit_out_of_range = runes "limit must be between 1 and 100"
error_text quote too_many_columns = runes "columns must contain at most 64 entries"
error_text quote (invalid_column i) = runes "columns[" ++ (itoa i ++ runes "]: invalid identifier")
error_text quote (duplicate_column i) =
    runes "columns[" ++ (itoa i ++ runes "]: duplicate identifier")
error_text quote (unsupported_action_version v) = runes "unsupported actionVersion " ++ quote v
error_text quote invalid_table_ref = runes "invalid tableRef"
error_text quote too_many_projected = runes "projection must contain at most 64 columns"
error_text quote (invalid_part label value) =
    label ++ (runes " " ++ (quote value ++ runes ": invalid identifier"))
error_text quote (not_in_schema c) =
    runes "requested column " ++ (quote c ++ runes " is not present in the imported table schema")
error_text quote (selected_twice c) =
    runes "column " ++ (quote c ++ runes " is selected more than once")
