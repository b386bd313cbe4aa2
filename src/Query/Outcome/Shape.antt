-- ===== src/Query/Outcome/Shape.antt =====
-- The shape of a normalized result, and what of the input it keeps.
use provider_databricks.Prelude.{
  ℕ, zero, suc, ◌≤◌, List, [], ◌∷◌, map, Text, length, length-take, take_all, length-map, take,
  init, contains, contains_iff, IsIn, All, ◌≡◌, refl, sym, ap, ◌∙◌, arith, inl, inr, Bool-cases,
  false≢true,
}
use provider_databricks.Query.Request.{max_query_columns}
use provider_databricks.Query.Request.Controls.{
  Distinct, Avoids, Avoids-cons, Avoids-tail, not_contains, Avoids-nil,
}
use provider_databricks.Query.Outcome.{
  QueryColumn, Row, QueryTableResult, max_query_rows, names, dedupe, distinct_keys, normalized_row,
  rows_for_columns, normalize_result_shape,
}

-- The keys of a row, in order.
abbrev pub row_keys : Row → List Text
row_keys = map (λ entry. entry.0)

-- The shape that every answer has: few columns with distinct names, few rows, and in each row one
-- entry for each column.
pub record IsBounded (result : QueryTableResult) : Type 0 where
  pub few_columns : length result.columns ≤ max_query_columns
  pub few_rows : length result.rows ≤ max_query_rows
  pub distinct : Distinct (names result.columns)
  pub aligned : All (λ row. row_keys row ≡ names result.columns) result.rows

pub dedupe-Distinct :
    (seen : List Text) (columns : List QueryColumn)
    → Distinct (names (dedupe seen columns).0) × Avoids seen (names (dedupe seen columns).0)
unfolding dedupe
dedupe-Distinct seen [] = (tt, tt)
dedupe-Distinct seen (c ∷ cs) = elim (Bool-cases (contains c.name seen)) [
  | inl old ↦ rw old (dedupe-Distinct seen cs)
  | inr new ↦ rw new (
      let (distinct, avoids) = dedupe-Distinct (c.name ∷ seen) cs in
      let (avoids', apart) = Avoids-tail c.name seen (names (dedupe (c.name ∷ seen) cs).0) avoids in
      let unseen : ¬ (IsIn c.name seen) =
        λ m. false≢true (sym new ∙ (contains_iff c.name seen).1 m) in
      ((apart, distinct), (unseen, avoids')))
]

IsIn-take :
    (n : ℕ) (c : Text) (columns : List QueryColumn)
    → IsIn c (names (take n columns))
    → IsIn c (names columns)
IsIn-take zero c xs m = absurd m
IsIn-take (suc n) c [] m = m
IsIn-take (suc n) c (x ∷ xs) (inl e) = inl e
IsIn-take (suc n) c (x ∷ xs) (inr m) = inr (IsIn-take n c xs m)

Distinct-take :
    (n : ℕ) (columns : List QueryColumn)
    → Distinct (names columns)
    → Distinct (names (take n columns))
Distinct-take zero xs d = tt
Distinct-take (suc n) [] d = tt
Distinct-take (suc n) (x ∷ xs) (h, d) = ((λ m. h (IsIn-take n x.name xs m)), Distinct-take n xs d)

IsIn-init :
    (c : Text) (columns : List QueryColumn) → IsIn c (names (init columns)) → IsIn c (names columns)
IsIn-init c [] m = m
IsIn-init c (x ∷ []) m = absurd m
IsIn-init c (x ∷ y ∷ ys) (inl e) = inl e
IsIn-init c (x ∷ y ∷ ys) (inr m) = inr (IsIn-init c (y ∷ ys) m)

pub Distinct-init :
    (columns : List QueryColumn) → Distinct (names columns) → Distinct (names (init columns))
Distinct-init [] d = tt
Distinct-init (x ∷ []) d = tt
Distinct-init (x ∷ y ∷ ys) (h, d) =
    ((λ m. h (IsIn-init x.name (y ∷ ys) m)), Distinct-init (y ∷ ys) d)

pub distinct_keys_id :
    (seen keys : List Text) → Distinct keys → Avoids seen keys → distinct_keys seen keys ≡ keys
unfolding distinct_keys
distinct_keys_id seen [] d a = refl
distinct_keys_id seen (k ∷ ks) (h, d) (n, a) =
    rw (not_contains k seen n, distinct_keys_id (k ∷ seen) ks d (Avoids-cons k seen ks h a))

row_keys-normalized_row : (keys : List Text) (row : Row) → row_keys (normalized_row keys row) ≡ keys
unfolding normalized_row
row_keys-normalized_row [] row = refl
row_keys-normalized_row (k ∷ ks) row = ap (◌∷◌ k) (row_keys-normalized_row ks row)

pub rows_for_columns-aligned :
    (rows : List Row) (columns : List QueryColumn)
    → Distinct (names columns)
    → All (λ row. row_keys row ≡ names columns) (rows_for_columns rows columns)
unfolding rows_for_columns
rows_for_columns-aligned [] columns d = tt
rows_for_columns-aligned (row ∷ rows) columns d = (
  row_keys-normalized_row (distinct_keys [] (names columns)) row
      ∙ distinct_keys_id [] (names columns) d (Avoids-nil (names columns)),
  rows_for_columns-aligned rows columns d,
)

pub length-rows_for_columns :
    (rows : List Row) (columns : List QueryColumn)
    → length (rows_for_columns rows columns) ≡ length rows
unfolding rows_for_columns
length-rows_for_columns rows columns =
    length-map (normalized_row (distinct_keys [] (names columns))) rows

-- The normalized result has the shape.
pub normalize_result_shape-IsBounded :
    (result : QueryTableResult) → IsBounded (normalize_result_shape result)
unfolding normalize_result_shape
normalize_result_shape-IsBounded result =
    let kept = (dedupe [] result.columns).0 in
    let distinct = Distinct-take max_query_columns kept (dedupe-Distinct [] result.columns).0 in
    let rows = take max_query_rows result.rows in
    record {
      few_columns = omega (arith, length-take max_query_columns kept);
      few_rows = omega (
        arith,
        length-take max_query_rows result.rows,
        length-rows_for_columns rows (take max_query_columns kept),
      );
      distinct = distinct;
      aligned = rows_for_columns-aligned rows (take max_query_columns kept) distinct;
    }

dedupe_id :
    (seen : List Text) (columns : List QueryColumn)
    → Distinct (names columns)
    → Avoids seen (names columns)
    → (dedupe seen columns).0 ≡ columns
unfolding dedupe
dedupe_id seen [] d a = refl
dedupe_id seen (c ∷ cs) (h, d) (n, a) = rw (
  not_contains c.name seen n,
  dedupe_id (c.name ∷ seen) cs d (Avoids-cons c.name seen (names cs) h a),
)

-- Columns that are few and distinct stay as they are.
pub normalize_result_shape-columns :
    (r : QueryTableResult)
    → length r.columns ≤ max_query_columns
    → Distinct (names r.columns)
    → (normalize_result_shape r).columns ≡ r.columns
unfolding normalize_result_shape
normalize_result_shape-columns r few distinct =
    ap (take max_query_columns) (dedupe_id [] r.columns distinct (Avoids-nil (names r.columns)))
    ∙ take_all max_query_columns r.columns few
