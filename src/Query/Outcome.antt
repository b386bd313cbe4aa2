-- ===== src/Query/Outcome.antt =====
-- The bounds on a result: `normalizeResultShape`, `rowsForColumns`, `truncateString`,
-- `BoundQueryResultWithin` and `BoundQueryResult` of queryapi/query.go.
pub mod Shape
pub mod Parts
pub mod Bounds
pub mod Kept
pub mod Drawn
pub mod Sizes
pub mod Drops
use provider_databricks.Prelude.{
  ℕ, zero, suc, ◌+◌, ◌*◌, ltb, leb, if◌then◌else◌, Bool, true, false, not, ◌||◌, List, [], ◌∷◌,
  Option, none, some, map, Text, runes, length, take, init, any, is_empty, contains, text_eq,
  max_rune, ℤ, pos, negsuc,
}
use provider_databricks.Query.Request.{action_version_v1, max_query_columns}

-- A decoded JSON value, `any`; a number keeps its text.
mutual
  pub data Value : Type 0 where
    null : Value
    boolean : Bool → Value
    number : Text → Value
    text : Text → Value
    array : Items → Value
    object : Fields → Value

  pub data Items : Type 0 where
    nil : Items
    cons : Value → Items → Items

  pub data Fields : Type 0 where
    end : Fields
    field : Text → Value → Fields → Fields

pub record QueryColumn : Type 0 where
  pub name : Text
  pub type : Text

-- `map[string]any`, by its entries.
abbrev pub Row : Type 0
Row = List (Text × Value)

pub record QueryTableResult : Type 0 where
  pub action_version : Text
  pub table_ref : Text
  pub columns : List QueryColumn
  pub rows : List Row
  pub truncated : Bool

abbrev pub max_query_rows : ℕ
max_query_rows = 100

abbrev pub max_query_bytes : ℕ
max_query_bytes = 64 * 1024

abbrev pub names : List QueryColumn → List Text
names = map (λ c. c.name)

-- `row[key]`
unfoldable pub value_at : Text → Row → Option Value
unfolding text_eq
value_at key [] = none
value_at key ((k, v) ∷ row) = if text_eq key k then some v else value_at key row

-- The columns of which no earlier one has the name, and whether one was left out.
unfoldable pub dedupe : List Text → List QueryColumn → List QueryColumn × Bool
unfolding contains
dedupe seen [] = ([], false)
dedupe seen (column ∷ columns) =
    let rest = dedupe (if contains column.name seen then seen else column.name ∷ seen) columns in
    if contains column.name seen then (rest.0, true) else (column ∷ rest.0, rest.1)

-- `keys`: the distinct names, in order.
unfoldable pub distinct_keys : List Text → List Text → List Text
unfolding contains
distinct_keys seen [] = []
distinct_keys seen (key ∷ keys) =
    let rest = distinct_keys (if contains key seen then seen else key ∷ seen) keys in
    if contains key seen then rest else key ∷ rest

abbrev pub value_or_null : Option Value → Value
value_or_null none = null
value_or_null (some v) = v

unfoldable pub normalized_row : List Text → Row → Row
unfolding value_at
normalized_row keys row = map (λ key. (key, value_or_null (value_at key row))) keys

unfoldable pub rows_for_columns : List Row → List QueryColumn → List Row
unfolding distinct_keys normalized_row
rows_for_columns rows columns = map (normalized_row (distinct_keys [] (names columns))) rows

-- Whether some row has a key outside the columns.
unfoldable pub has_extra_key : List Text → List Row → Bool
unfolding contains
has_extra_key allowed = any (any (λ entry. not (contains entry.0 allowed)))

unfoldable pub normalize_result_shape : QueryTableResult → QueryTableResult
unfolding dedupe rows_for_columns has_extra_key
normalize_result_shape result =
    let found = dedupe [] result.columns in
    let columns = take max_query_columns found.0 in
    let rows = take max_query_rows result.rows in
    record result {
      columns = columns;
      rows = rows_for_columns rows columns;
      truncated =
          result.truncated
          || (found.1
              || (ltb max_query_columns (length found.0)
                  || (ltb max_query_rows (length result.rows)
                      || has_extra_key (names columns) rows)));
    }

-- `string([]rune(value))` turns a stray byte into U+FFFD.
abbrev pub valid_rune : ℕ → ℕ
valid_rune c = if ltb max_rune c then 0xFFFD else c

unfoldable pub truncate_string : Text → ℕ → Text
truncate_string value most =
    if leb (length value) most then value else map valid_rune (take most value)

-- The result that is left when nothing can be dropped any more.
unfoldable pub smallest_result : QueryTableResult → QueryTableResult
unfolding truncate_string
smallest_result result = record {
  action_version = action_version_v1;
  table_ref = truncate_string result.table_ref 253;
  columns = [];
  rows = [];
  truncated = true;
}

-- One round of the loop that drops a row, or else a column.
unfoldable pub shrink : QueryTableResult → Option QueryTableResult
unfolding rows_for_columns
shrink result =
    if not (is_empty result.rows)
    then some (record result { rows = init result.rows; truncated = true })
    else if not (is_empty result.columns)
    then some (record result {
      columns = init result.columns;
      rows = rows_for_columns result.rows (init result.columns);
      truncated = true;
    })
    else none

-- `maxBytes < 1 || maxBytes > MaxQueryBytes`
abbrev pub byte_budget : ℤ → ℕ
byte_budget (pos n) = if ltb n 1 || ltb max_query_bytes n then max_query_bytes else n
byte_budget (negsuc n) = max_query_bytes

-- The fuel of the loop: each round drops a row or a column.
abbrev pub rounds : QueryTableResult → ℕ
rounds result = suc (length result.rows + length result.columns)

-- `encoded_size` is the length of what `json.Marshal` returns, `none` an error of it.
module _ (encoded_size : QueryTableResult → Option ℕ) where
  unfoldable pub fits : ℕ → QueryTableResult → Bool
  fits budget result = elim (encoded_size result) [ none ↦ false | some n ↦ leb n budget ]

  -- The loop, with fuel; `none` means that the fuel ran out.
  unfoldable pub bound_from : ℕ → ℕ → QueryTableResult → Option QueryTableResult
  unfolding fits shrink smallest_result
  bound_from zero budget result = none
  bound_from (suc fuel) budget result = elim (fits budget result) [
    | true ↦ some result
    | false ↦ elim (shrink result) [
      | none ↦ some (smallest_result result)
      | some smaller ↦ bound_from fuel budget smaller
    ]
  ]

  unfoldable pub bound_query_result_within : QueryTableResult → ℤ → QueryTableResult
  unfolding normalize_result_shape bound_from
  bound_query_result_within result max_bytes =
      let shaped = normalize_result_shape result in
      elim (bound_from (rounds shaped) (byte_budget max_bytes) shaped) [
        | none ↦ smallest_result shaped
        | some bounded ↦ bounded
      ]

  unfoldable pub bound_query_result : QueryTableResult → QueryTableResult
  unfolding bound_query_result_within
  bound_query_result result = bound_query_result_within result (pos max_query_bytes)
