-- ===== src/Query/Outcome/Drawn.antt =====
-- That an answer of queryapi/query.go has no column and no value that its input has not.
use provider_databricks.Prelude.{
  ℕ, zero, suc, Bool-cases, List, [], ◌∷◌, ◌++◌, map, Option, none, some, some-injective, Text,
  text_eq, text_eq_iff, take, contains, ◌≡◌, refl, sym, ap, ◌∙◌, subst, ◌⊎◌, inl, inr,
}
use provider_databricks.Query.Outcome.{
  Value, null, QueryColumn, Row, QueryTableResult, value_at, value_or_null, dedupe, normalized_row,
  rows_for_columns, normalize_result_shape, names, distinct_keys, max_query_rows,
}
use provider_databricks.Query.Request.{max_query_columns}
use provider_databricks.Query.Outcome.Parts.{IsPart}

abbrev pub Among : QueryColumn → List QueryColumn → Type 0
Among c [] = ⊥
Among c (x ∷ xs) = (c ≡ x) ⊎ Among c xs

-- Each value is that of the input's row under the same key, or null where it has none.
abbrev pub IsDrawnRow : Row → Row → Type 0
IsDrawnRow row out =
    (key : Text) (v : Value)
    → value_at key out ≡ some v
    → (value_at key row ≡ some v) ⊎ ((value_at key row ≡ none) × (v ≡ null))

-- The first rows, each drawn from the row in the same place.
abbrev pub AreDrawn : List Row → List Row → Type 0
AreDrawn rows [] = Unit
AreDrawn [] (out ∷ outs) = ⊥
AreDrawn (row ∷ rows) (out ∷ outs) = IsDrawnRow row out × AreDrawn rows outs

pub record IsDrawn (input out : QueryTableResult) : Type 0 where
  pub own_columns : (c : QueryColumn) → Among c out.columns → Among c input.columns
  pub own_rows : AreDrawn input.rows out.rows

Among-dedupe :
    (seen : List Text) (columns : List QueryColumn) (c : QueryColumn)
    → Among c (dedupe seen columns).0
    → Among c columns
unfolding dedupe
Among-dedupe seen [] c h = h
Among-dedupe seen (x ∷ xs) c h = elim (Bool-cases (contains x.name seen)) [
  | inl old ↦ inr (Among-dedupe seen xs c (rw (old, dedupe) at h))
  | inr new ↦
      let kept : Among c (x ∷ (dedupe (x.name ∷ seen) xs).0) = rw (new, dedupe) at h in
      elim kept [ inl here ↦ inl here | inr there ↦ inr (Among-dedupe (x.name ∷ seen) xs c there) ]
]

Among-take :
    (n : ℕ) (columns : List QueryColumn) (c : QueryColumn)
    → Among c (take n columns)
    → Among c columns
Among-take zero xs c h = absurd h
Among-take (suc n) [] c h = h
Among-take (suc n) (x ∷ xs) c (inl here) = inl here
Among-take (suc n) (x ∷ xs) c (inr there) = inr (Among-take n xs c there)

Among-append : (xs rest : List QueryColumn) (c : QueryColumn) → Among c xs → Among c (xs ++ rest)
Among-append [] rest c h = absurd h
Among-append (x ∷ xs) rest c (inl here) = inl here
Among-append (x ∷ xs) rest c (inr there) = inr (Among-append xs rest c there)

or_null :
    (o : Option Value) → (o ≡ some (value_or_null o)) ⊎ ((o ≡ none) × (value_or_null o ≡ null))
or_null none = inr (refl, refl)
or_null (some v) = inl refl

normalized_row-IsDrawnRow :
    (keys : List Text) (row : Row) → IsDrawnRow row (normalized_row keys row)
unfolding normalized_row value_at
normalized_row-IsDrawnRow [] row key v h = cc
normalized_row-IsDrawnRow (k ∷ ks) row key v h = elim (Bool-cases (text_eq key k)) [
  | inr other ↦ normalized_row-IsDrawnRow ks row key v (rw (other) at h)
  | inl same ↦
      let found : some (value_or_null (value_at k row)) ≡ some v = rw (same) at h in
      subst (λ (w : Value). (value_at key row ≡ some w) ⊎ ((value_at key row ≡ none) × (w ≡ null)))
        (ap (λ (t : Text). value_or_null (value_at t row)) ((text_eq_iff key k).0 same)
          ∙ some-injective found)
        (or_null (value_at key row))
]

rows-AreDrawn :
    (keys : List Text) (n : ℕ) (rows : List Row)
    → AreDrawn rows (map (normalized_row keys) (take n rows))
rows-AreDrawn keys zero rows = tt
rows-AreDrawn keys (suc n) [] = tt
rows-AreDrawn keys (suc n) (row ∷ rows) =
    (normalized_row-IsDrawnRow keys row, rows-AreDrawn keys n rows)

normalize_result_shape-IsDrawn : (r : QueryTableResult) → IsDrawn r (normalize_result_shape r)
unfolding normalize_result_shape rows_for_columns
normalize_result_shape-IsDrawn r =
    let kept = (dedupe [] r.columns).0 in
    record {
      own_columns = λ c h. Among-dedupe [] r.columns c (Among-take max_query_columns kept c h);
      own_rows =
          rows-AreDrawn (distinct_keys [] (names (take max_query_columns kept))) max_query_rows
            r.rows;
    }

AreDrawn-prefix : (rows outs rest : List Row) → AreDrawn rows (outs ++ rest) → AreDrawn rows outs
AreDrawn-prefix rows [] rest h = tt
AreDrawn-prefix [] (out ∷ outs) rest h = h
AreDrawn-prefix (row ∷ rows) (out ∷ outs) rest (here, later) =
    (here, AreDrawn-prefix rows outs rest later)

-- A part of what is drawn from an input is drawn from it.
pub IsPart-IsDrawn :
    (input start out : QueryTableResult)
    → IsDrawn input start
    → IsPart start out
    → IsDrawn input out
IsPart-IsDrawn input start out drawn part =
    let (more, columns) = part.first_columns in
    let (later, rows) = part.first_rows in
    record {
      own_columns = λ c h.
          drawn.own_columns c
            (subst (λ cs. Among c cs) columns (Among-append out.columns more c h));
      own_rows =
          AreDrawn-prefix input.rows out.rows later
            (subst (AreDrawn input.rows) (sym rows) drawn.own_rows);
    }

pub normalized_part-IsDrawn :
    (input out : QueryTableResult) → IsPart (normalize_result_shape input) out → IsDrawn input out
normalized_part-IsDrawn input out part =
    IsPart-IsDrawn input (normalize_result_shape input) out (normalize_result_shape-IsDrawn input)
      part
