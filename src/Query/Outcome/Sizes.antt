-- ===== src/Query/Outcome/Sizes.antt =====
-- How many rows and columns `BoundQueryResult` of queryapi/query.go leaves.
use provider_databricks.Prelude.{
  ℕ, zero, suc, ◌≤◌, List, [], ◌∷◌, Option, some, Text, length, take, length-take, ◌≡◌, arith, inl,
  inr, Bool-cases, Option-cases, subst, some-injective,
}
use provider_databricks.Query.Request.{max_query_columns}
use provider_databricks.Query.Outcome.{
  QueryColumn, QueryTableResult, dedupe, normalize_result_shape, smallest_result, shrink, fits,
  bound_from, rounds, bound_query_result_within, bound_query_result, max_query_bytes,
  max_query_rows,
}
use provider_databricks.Query.Outcome.Shape.{
  IsBounded, length-rows_for_columns, normalize_result_shape-IsBounded,
}
use provider_databricks.Query.Outcome.Bounds.{size, shrink_lem, bound_from_lem}

length-dedupe :
    (seen : List Text) (columns : List QueryColumn)
    → length (dedupe seen columns).0 ≤ length columns
unfolding dedupe
length-dedupe seen [] = omega arith
length-dedupe seen (c ∷ cs) =
    ground (arith, length-dedupe (c.name ∷ seen) cs, length-dedupe seen cs)

normalize_result_shape-size : (r : QueryTableResult) → size (normalize_result_shape r) ≤ size r
unfolding normalize_result_shape
normalize_result_shape-size r =
    let columns = take max_query_columns (dedupe [] r.columns).0 in
    omega (
      arith,
      length-rows_for_columns (take max_query_rows r.rows) columns,
      length-take max_query_rows r.rows,
      length-take max_query_columns (dedupe [] r.columns).0,
      length-dedupe [] r.columns,
    )

smallest_result-size : (r : QueryTableResult) → size (smallest_result r) ≤ size r
unfolding smallest_result
smallest_result-size r = omega arith

module _ (encoded_size : QueryTableResult → Option ℕ) where
  bound_from-size :
      (fuel budget : ℕ) (r out : QueryTableResult)
      → IsBounded r
      → bound_from encoded_size fuel budget r ≡ some out
      → size out ≤ size r
  unfolding bound_from
  bound_from-size zero budget r out b h = cc
  bound_from-size (suc fuel) budget r out b h = elim (Bool-cases (fits encoded_size budget r)) [
    | inl fit ↦
        let same : some r ≡ some out = rw (fit, bound_from) at h in
        subst (λ (o : QueryTableResult). size o ≤ size r) (some-injective same) (omega arith)
    | inr big ↦ elim (Option-cases (shrink r)) [
      | inl least ↦
          let same : some (smallest_result r) ≡ some out = rw (big, least, bound_from) at h in
          subst (λ (o : QueryTableResult). size o ≤ size r) (some-injective same)
            (smallest_result-size r)
      | inr (smaller, shrunk) ↦
          let (bounded, less, _, _, _) = shrink_lem r smaller shrunk b in
          let rest : bound_from encoded_size fuel budget smaller ≡ some out =
            rw (big, shrunk, bound_from) at h in
          omega (arith, less, bound_from-size fuel budget smaller out bounded rest)
    ]
  ]

  pub bound_query_result-size :
      (r : QueryTableResult) → size (bound_query_result encoded_size r) ≤ size r
  unfolding bound_query_result bound_query_result_within
  bound_query_result-size r =
      let start = normalize_result_shape r in
      let bounded = normalize_result_shape-IsBounded r in
      let (out, ends, within) =
        bound_from_lem encoded_size (rounds start) max_query_bytes start (omega arith) bounded in
      let less = bound_from-size (rounds start) max_query_bytes start out bounded ends in
      rw (ends, bound_query_result_within) (omega (arith, less, normalize_result_shape-size r))
