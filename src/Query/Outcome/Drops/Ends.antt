-- ===== src/Query/Outcome/Drops/Ends.antt =====
-- The loop of Query/Outcome/Drops ends, and how.
use provider_databricks.Prelude.{
  ℕ, zero, suc, ◌<◌, ◌≡◌, refl, ap, ◌∙◌, subst, ◌⊎◌, inl, inr, Bool, true, false, List, [], ◌∷◌,
  Option, none, some, init, length-init, Text, arith, Bool-cases, Option-cases, some-injective,
}
use provider_databricks.Query.Outcome.{QueryColumn, Row, QueryTableResult}
use provider_databricks.Query.Outcome.Bounds.{size}
use provider_databricks.Query.Outcome.Sizes.{bound_query_result-size}
use provider_databricks.Query.Outcome.Drops.{Drop, fitted, exhausted, drop_one, drop_from}

-- What the loop ends with: the result itself or a marked one, which is accepted; or else it came to
-- a result with neither rows nor columns, which is not.
abbrev pub Ends : (QueryTableResult → Bool) → QueryTableResult → Drop → Type 0
Ends accepts r (fitted out) = (accepts out ≡ true) × ((out ≡ r) ⊎ (out.truncated ≡ true))
Ends accepts r exhausted =
    (last : QueryTableResult) × (last.columns ≡ []) × (last.rows ≡ []) × (accepts last ≡ false)

Ends-drop :
    (accepts : QueryTableResult → Bool) (r smaller : QueryTableResult) (end : Drop)
    → smaller.truncated ≡ true
    → Ends accepts smaller end
    → Ends accepts r end
Ends-drop accepts r smaller (fitted out) marked (fit, inl same) =
    (fit, inr (ap (λ (o : QueryTableResult). o.truncated) same ∙ marked))
Ends-drop accepts r smaller (fitted out) marked (fit, inr also) = (fit, inr also)
Ends-drop accepts r smaller exhausted marked h = h

module _ (encoded_size : QueryTableResult → Option ℕ) where
  abbrev made : Text → Text → List QueryColumn → List Row → Bool → QueryTableResult
  made version ref columns rows truncated = record {
    action_version = version;
    table_ref = ref;
    columns = columns;
    rows = rows;
    truncated = truncated;
  }

  -- A result with fewer rows and columns in all, that is marked.
  abbrev Dropped : QueryTableResult → QueryTableResult → Type 0
  Dropped r smaller = (size smaller < size r) × (smaller.truncated ≡ true)

  drop_one_parts :
      (version ref : Text) (columns : List QueryColumn) (rows : List Row) (truncated : Bool)
      (smaller : QueryTableResult)
      → drop_one encoded_size (made version ref columns rows truncated) ≡ some smaller
      → Dropped (made version ref columns rows truncated) smaller
  unfolding drop_one
  drop_one_parts version ref [] [] truncated smaller h = cc
  drop_one_parts version ref (c ∷ cs) [] truncated smaller h =
      subst (Dropped (made version ref (c ∷ cs) [] truncated)) (some-injective h) (
        omega (
          arith,
          length-init c cs,
          bound_query_result-size encoded_size (made version ref (init (c ∷ cs)) [] truncated),
        ),
        refl,
      )
  drop_one_parts version ref columns (x ∷ xs) truncated smaller h =
      subst (Dropped (made version ref columns (x ∷ xs) truncated)) (some-injective h)
        (omega (arith, length-init x xs), refl)

  drop_one-none :
      (version ref : Text) (columns : List QueryColumn) (rows : List Row) (truncated : Bool)
      → drop_one encoded_size (made version ref columns rows truncated) ≡ none
      → (columns ≡ []) × (rows ≡ [])
  unfolding drop_one
  drop_one-none version ref [] [] truncated h = (refl, refl)
  drop_one-none version ref (c ∷ cs) [] truncated h = cc
  drop_one-none version ref columns (x ∷ xs) truncated h = cc

  -- With more fuel than rows and columns the loop ends, with the result itself or a marked one that is
  -- accepted, or with nothing left to drop after a result without rows and columns that is not.
  pub drop_from-Ends :
      (fuel : ℕ) (accepts : QueryTableResult → Bool) (r : QueryTableResult)
      → size r < fuel
      → (end : Drop) × (drop_from encoded_size fuel accepts r ≡ some end) × Ends accepts r end
  unfolding drop_from
  drop_from-Ends zero accepts r h = absurd (omega arith)
  drop_from-Ends (suc fuel) accepts r h = elim (Bool-cases (accepts r)) [
    | inl fit ↦ (fitted r, rw (fit, drop_from) refl, (fit, inl refl))
    | inr big ↦ elim (Option-cases (drop_one encoded_size r)) [
      | inl least ↦
          let (no_columns, no_rows) =
            drop_one-none r.action_version r.table_ref r.columns r.rows r.truncated least in
          (exhausted, rw (big, least, drop_from) refl, (r, no_columns, no_rows, big))
      | inr (smaller, dropped) ↦
          let (less, marked) =
            drop_one_parts r.action_version r.table_ref r.columns r.rows r.truncated smaller
              dropped in
          let (end, ends, good) = drop_from-Ends fuel accepts smaller (omega (arith, less)) in
          (end, rw (big, dropped, drop_from) ends, Ends-drop accepts r smaller end marked good)
    ]
  ]
