-- ===== src/Query/Outcome/Kept.antt =====
-- What `BoundQueryResultWithin` of queryapi/query.go keeps of the columns and values of its input.
use provider_databricks.Prelude.{
  ℕ, ltb, Bool, true, false, not, ◌||◌, List, [], ◌∷◌, Option, some, Text, length, take, any,
  contains, contains_iff, IsIn, none, text_eq, text_eq_iff, ◌≡◌, refl, sym, ap, ◌∙◌, arith, inl,
  inr, Bool-cases, take_all, not_ltb→le, ℤ, false≢true, map, subst,
}
use provider_databricks.Query.Request.{max_query_columns}
use provider_databricks.Query.Request.Controls.{Distinct, Avoids-nil}
use provider_databricks.Query.Outcome.{
  Value, null, QueryColumn, Row, QueryTableResult, max_query_rows, names, value_at, value_or_null,
  dedupe, normalized_row, rows_for_columns, has_extra_key, normalize_result_shape,
  bound_query_result_within,
}
use provider_databricks.Query.Outcome.Shape.{distinct_keys_id, dedupe-Distinct}
use provider_databricks.Query.Outcome.Bounds.{bound_query_result_within-IsWithin}

-- Every value of a row stands in the other row under its key, and a column without one has null there.
abbrev pub KeepsRow : List QueryColumn → Row → Row → Type 0
KeepsRow columns row out =
    ((key : Text) (v : Value) → value_at key row ≡ some v → value_at key out ≡ some v)
    × ((key : Text)
        → IsIn key (names columns)
        → value_at key row ≡ none
        → value_at key out ≡ some null)

abbrev pub KeepsRows : List QueryColumn → List Row → List Row → Type 0
KeepsRows columns [] [] = Unit
KeepsRows columns (row ∷ rows) (out ∷ outs) = KeepsRow columns row out × KeepsRows columns rows outs
KeepsRows columns _ _ = ⊥

dedupe_all :
    (seen : List Text) (columns : List QueryColumn)
    → (dedupe seen columns).1 ≡ false
    → (dedupe seen columns).0 ≡ columns
unfolding dedupe
dedupe_all seen [] h = refl
dedupe_all seen (c ∷ cs) h = elim (Bool-cases (contains c.name seen)) [
  | inl old ↦ absurd (false≢true (sym h ∙ rw (old, dedupe)))
  | inr new ↦ rw (new, dedupe_all (c.name ∷ seen) cs (rw (new, dedupe) at h))
]

value_at-normalized_row :
    (key : Text) (keys : List Text) (row : Row)
    → contains key keys ≡ true
    → value_at key (normalized_row keys row) ≡ some (value_or_null (value_at key row))
unfolding value_at normalized_row contains
value_at-normalized_row key [] row h = cc
value_at-normalized_row key (k ∷ ks) row h = elim (Bool-cases (text_eq key k)) [
  | inl same ↦
      rw same (ap (λ t. some (value_or_null (value_at t row))) (sym ((text_eq_iff key k).0 same)))
  | inr other ↦ rw other (value_at-normalized_row key ks row (rw other at h))
]

-- A key with a value in a row without extra keys is a column.
key-contains :
    (allowed : List Text) (row : Row) (key : Text) (v : Value)
    → any (λ entry. not (contains entry.0 allowed)) row ≡ false
    → value_at key row ≡ some v
    → contains key allowed ≡ true
unfolding value_at
key-contains allowed [] key v h e = cc
key-contains allowed ((k, w) ∷ row) key v h e =
    ground (arith, text_eq_iff key k, key-contains allowed row key v)

normalized_row-KeepsRow :
    (columns : List QueryColumn) (row : Row)
    → any (λ entry. not (contains entry.0 (names columns))) row ≡ false
    → KeepsRow columns row (normalized_row (names columns) row)
normalized_row-KeepsRow columns row h = (
  (λ key v e.
      value_at-normalized_row key (names columns) row (key-contains (names columns) row key v h e)
      ∙ ap (λ o. some (value_or_null o)) e),
  (λ key there missing.
      value_at-normalized_row key (names columns) row ((contains_iff key (names columns)).1 there)
      ∙ ap (λ o. some (value_or_null o)) missing),
)

rows-KeepsRows :
    (columns : List QueryColumn) (rows : List Row)
    → has_extra_key (names columns) rows ≡ false
    → KeepsRows columns rows (map (normalized_row (names columns)) rows)
unfolding has_extra_key
rows-KeepsRows columns [] h = tt
rows-KeepsRows columns (row ∷ rows) h =
    (normalized_row-KeepsRow columns row (ground arith), rows-KeepsRows columns rows (ground arith))

flags :
    (a b c d e : Bool)
    → (a || (b || (c || (d || e)))) ≡ false
    → (b ≡ false) × (c ≡ false) × (d ≡ false) × (e ≡ false)
flags a b c d e h = ground arith

normalize_result_shape-keeps :
    (result : QueryTableResult)
    → (normalize_result_shape result).truncated ≡ false
    → ((normalize_result_shape result).columns ≡ result.columns)
      × KeepsRows result.columns result.rows (normalize_result_shape result).rows
unfolding normalize_result_shape rows_for_columns
normalize_result_shape-keeps result h =
    let kept = (dedupe [] result.columns).0 in
    let columns = take max_query_columns kept in
    let rows = take max_query_rows result.rows in
    let (unique, few, short, plain) =
      flags result.truncated (dedupe [] result.columns).1 (ltb max_query_columns (length kept))
        (ltb max_query_rows (length result.rows)) (has_extra_key (names columns) rows) h in
    let all : columns ≡ kept = take_all max_query_columns kept (not_ltb→le _ _ few) in
    let distinct : Distinct (names columns) =
      subst (λ cs. Distinct (names cs)) (sym all) (dedupe-Distinct [] result.columns).0 in
    let keys = distinct_keys_id [] (names columns) distinct (Avoids-nil (names columns)) in
    let same = all ∙ dedupe_all [] result.columns unique in
    (
      same,
      subst (λ cs. KeepsRows cs result.rows (rows_for_columns rows columns)) same
          (subst (λ t. KeepsRows columns t (rows_for_columns rows columns))
            (take_all max_query_rows result.rows (not_ltb→le _ _ short))
            (subst (λ ks. KeepsRows columns rows (map (normalized_row ks) rows)) (sym keys)
              (rows-KeepsRows columns rows plain))),
    )

-- An answer that is not marked truncated has the columns of the input, and as many rows, each with
-- every value of the input's row in the same place and with null for a column without one.
pub bound_query_result_within-keeps :
    (encoded_size : QueryTableResult → Option ℕ) (result : QueryTableResult) (max_bytes : ℤ)
    → (bound_query_result_within encoded_size result max_bytes).truncated ≡ false
    → ((bound_query_result_within encoded_size result max_bytes).columns ≡ result.columns)
      × KeepsRows result.columns result.rows
          (bound_query_result_within encoded_size result max_bytes).rows
bound_query_result_within-keeps encoded_size result max_bytes h =
    elim (bound_query_result_within-IsWithin encoded_size result max_bytes).1.part.honest [
      | inl same ↦
          subst
            (λ out. (out.columns ≡ result.columns) × KeepsRows result.columns result.rows out.rows)
            (sym same)
            (normalize_result_shape-keeps result (ap (λ out. out.truncated) (sym same) ∙ h))
      | inr marked ↦ absurd (false≢true (sym h ∙ marked))
    ]
