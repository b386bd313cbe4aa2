-- ===== src/Query/Request.antt =====
-- The input contract of query_table/v1: `NormalizeQueryControls`, `ValidateActionVersion`,
-- `ValidateTableRef` and `NormalizeQueryRequest` of queryapi/query.go.
pub mod Controls
use provider_databricks.Prelude.{
  ℕ, suc, zero, ◌+◌, ltb, leb, ◌==◌, if◌then◌else◌, Bool, true, false, not, ◌&&◌, ◌||◌, List, [],
  ◌∷◌, Text, runes, length, is_empty, contains, text_eq, trim_space, byte_length, ℤ, pos, negsuc,
  Result, ok, err, ◌>>=◌, ◌>>◌, reject_if,
}
use provider_databricks.Query.Errors.{
  QueryError, limit_out_of_range, too_many_columns, invalid_column, duplicate_column,
  unsupported_action_version, invalid_table_ref,
}
use provider_databricks.Query.Identifier.{validate_identifier}

abbrev pub action_version_v1 : Text
action_version_v1 = runes "v1"

abbrev pub max_query_limit : ℕ
max_query_limit = 100

abbrev pub default_query_limit : ℕ
default_query_limit = 100

abbrev pub max_query_columns : ℕ
max_query_columns = 64

pub record QueryTableRequest : Type 0 where
  pub action_version : Text
  pub table_ref : Text
  pub columns : List Text
  pub limit : ℤ

-- `if limit == 0 { limit = DefaultQueryLimit }`
abbrev pub default_limit : ℤ → ℤ
default_limit (pos zero) = pos default_query_limit
default_limit (pos (suc n)) = pos (suc n)
default_limit (negsuc n) = negsuc n

-- `limit < 1 || limit > MaxQueryLimit`
abbrev pub limit_rejected : ℤ → Bool
limit_rejected (pos n) = ltb n 1 || ltb max_query_limit n
limit_rejected (negsuc n) = true

-- The loop over the columns, from index `i`.
normalize_columns : ℕ → List Text → List Text → Result QueryError (List Text)
unfolding validate_identifier contains
normalize_columns i seen [] = ok []
normalize_columns i seen (column ∷ columns) = do
  reject_if (not (validate_identifier column)) (invalid_column i)
  reject_if (contains column seen) (duplicate_column i)
  normalized ← normalize_columns (i + 1) (column ∷ seen) columns
  ok (column ∷ normalized)

unfoldable pub normalize_query_controls : List Text → ℤ → Result QueryError (List Text × ℤ)
unfolding normalize_columns
normalize_query_controls columns limit = do
  let limit' = default_limit limit
  reject_if (limit_rejected limit') limit_out_of_range
  reject_if (ltb max_query_columns (length columns)) too_many_columns
  normalized ← normalize_columns 0 [] columns
  ok (normalized, limit')

unfoldable pub validate_action_version : Text → Result QueryError (Unit {0})
unfolding trim_space text_eq
validate_action_version version =
    reject_if (not (text_eq (trim_space version) action_version_v1))
      (unsupported_action_version version)

is_table_ref_end : ℕ → Bool
is_table_ref_end c = leb b'a' c && leb c b'z' || leb b'0' c && leb c b'9'

-- `(?:[-a-z0-9]*[a-z0-9])?$`, after an item of which the flag says whether it may be the last.
matches_table_ref_rest : Bool → Text → Bool
unfolding is_table_ref_end
matches_table_ref_rest last [] = last
matches_table_ref_rest last (c ∷ cs) =
    (c == b'-' || is_table_ref_end c) && matches_table_ref_rest (is_table_ref_end c) cs

-- `^[a-z0-9](?:[-a-z0-9]*[a-z0-9])?$`
unfoldable pub matches_table_ref : Text → Bool
unfolding matches_table_ref_rest
matches_table_ref [] = false
matches_table_ref (c ∷ cs) = is_table_ref_end c && matches_table_ref_rest true cs

unfoldable pub validate_table_ref : Text → Result QueryError (Unit {0})
unfolding matches_table_ref trim_space byte_length
validate_table_ref name =
    let trimmed = trim_space name in
    reject_if
      (is_empty trimmed || (ltb 253 (byte_length trimmed) || not (matches_table_ref trimmed)))
      invalid_table_ref

unfoldable pub normalize_query_request : QueryTableRequest → Result QueryError QueryTableRequest
unfolding validate_action_version validate_table_ref normalize_query_controls
normalize_query_request in' = do
  validate_action_version in'.action_version
  let table_ref = trim_space in'.table_ref
  validate_table_ref table_ref
  controls ← normalize_query_controls in'.columns in'.limit
  ok (record in' { table_ref = table_ref; columns = controls.0; limit = controls.1 })
