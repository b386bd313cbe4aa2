-- ===== src/Query/Outcome/Bounds.antt =====
-- The loop of `BoundQueryResultWithin` in queryapi/query.go and its answer.
use provider_databricks.Prelude.{
  ℕ, zero, suc, ◌+◌, ◌≤◌, ◌<◌, Bool, true, List, [], ◌∷◌, Option, some, Text, length, init,
  All-init, ◌≡◌, refl, ◌∙◌, arith, ◌⊎◌, inl, inr, Bool-cases, Option-cases, length-init, ℤ, subst,
  some-injective, sym, false, false≢true, IsPrefix-refl, init-IsPrefix,
}
use provider_databricks.Query.Outcome.{
  QueryColumn, Row, QueryTableResult, normalize_result_shape, smallest_result, shrink, fits,
  bound_from, rounds, byte_budget, bound_query_result_within,
}
use provider_databricks.Query.Outcome.Drawn.{IsDrawn, normalized_part-IsDrawn}
use provider_databricks.Query.Outcome.Parts.{
  IsPart, IsPart-refl, IsPart-trans, smallest_result-IsPart,
}
use provider_databricks.Query.Outcome.Shape.{
  IsBounded, Distinct-init, normalize_result_shape-IsBounded,
}

smallest_result-IsBounded : (result : QueryTableResult) → IsBounded (smallest_result result)
unfolding smallest_result
smallest_result-IsBounded result = record {
  few_columns = omega arith;
  few_rows = omega arith;
  distinct = tt;
  aligned = tt;
}

init-le {ℓ} : {A : Type ℓ} (xs : List A) → length (init xs) ≤ length xs
init-le [] = omega arith
init-le (x ∷ []) = omega arith
init-le (x ∷ y ∷ ys) = omega (arith, init-le (y ∷ ys))

abbrev pub size : QueryTableResult → ℕ
size r = length r.rows + length r.columns

abbrev pub Shrunk : QueryTableResult → QueryTableResult → Type 0
Shrunk r smaller =
    IsBounded smaller
    × (suc (size smaller) ≡ size r)
    × (smaller.truncated ≡ true)
    × (smallest_result smaller ≡ smallest_result r)
    × IsPart r smaller

abbrev made : Text → Text → List QueryColumn → List Row → Bool → QueryTableResult
made version ref columns rows truncated = record {
  action_version = version;
  table_ref = ref;
  columns = columns;
  rows = rows;
  truncated = truncated;
}

shrink_parts :
    (version ref : Text) (columns : List QueryColumn) (rows : List Row) (truncated : Bool)
    (smaller : QueryTableResult)
    → shrink (made version ref columns rows truncated) ≡ some smaller
    → IsBounded (made version ref columns rows truncated)
    → Shrunk (made version ref columns rows truncated) smaller
unfolding shrink smallest_result
shrink_parts version ref [] [] truncated smaller h b = cc
shrink_parts version ref (c ∷ cs) [] truncated smaller h b =
    subst (Shrunk (made version ref (c ∷ cs) [] truncated)) (some-injective h) (
      record {
        few_columns = omega (arith, init-le (c ∷ cs), b.few_columns);
        few_rows = omega arith;
        distinct = Distinct-init (c ∷ cs) b.distinct;
        aligned = tt;
      },
      omega (arith, length-init c cs),
      refl,
      refl,
      record {
        named = inl (refl, refl);
        first_columns = init-IsPrefix (c ∷ cs);
        first_rows = IsPrefix-refl [];
        whole_rows = inr refl;
        honest = inr refl;
      },
    )
shrink_parts version ref columns (x ∷ xs) truncated smaller h b =
    subst (Shrunk (made version ref columns (x ∷ xs) truncated)) (some-injective h) (
      record {
        few_columns = b.few_columns;
        few_rows = omega (arith, init-le (x ∷ xs), b.few_rows);
        distinct = b.distinct;
        aligned = All-init _ (x ∷ xs) b.aligned;
      },
      omega (arith, length-init x xs),
      refl,
      refl,
      record {
        named = inl (refl, refl);
        first_columns = IsPrefix-refl columns;
        first_rows = init-IsPrefix (x ∷ xs);
        whole_rows = inl refl;
        honest = inr refl;
      },
    )

-- One round keeps the shape, drops one row or one column, and marks the result.
pub shrink_lem :
    (r smaller : QueryTableResult) → shrink r ≡ some smaller → IsBounded r → Shrunk r smaller
shrink_lem r smaller h b =
    shrink_parts r.action_version r.table_ref r.columns r.rows r.truncated smaller h b

-- What the loop leaves of `start`: a part of it, of the shape, that fits or is the smallest result; and
-- all of it, if it fits.
pub record IsWithin (encoded_size : QueryTableResult → Option ℕ) (budget : ℕ)
    (start out : QueryTableResult) : Type 0 where
  pub shape : IsBounded out
  pub fitting : (fits encoded_size budget out ≡ true) ⊎ (out ≡ smallest_result start)
  pub part : IsPart start out
  pub whole : fits encoded_size budget start ≡ true → out ≡ start

module _ (encoded_size : QueryTableResult → Option ℕ) where
  IsWithin-shrink :
      (budget : ℕ) (r smaller out : QueryTableResult)
      → fits encoded_size budget r ≡ false
      → Shrunk r smaller
      → IsWithin encoded_size budget smaller out
      → IsWithin encoded_size budget r out
  IsWithin-shrink budget r smaller out big (_, _, _, least, part) w = record {
    shape = w.shape;
    fitting = elim w.fitting [ inl fit ↦ inl fit | inr e ↦ inr (e ∙ least) ];
    part = IsPart-trans r smaller out part w.part;
    whole = λ fit. absurd (false≢true (sym big ∙ fit));
  }

  -- With more fuel than rows and columns the loop ends.
  pub bound_from_lem :
      (fuel budget : ℕ) (r : QueryTableResult)
      → size r < fuel
      → IsBounded r
      → (out : QueryTableResult) × (bound_from encoded_size fuel budget r ≡ some out)
        × IsWithin encoded_size budget r out
  unfolding bound_from
  bound_from_lem zero budget r h b = absurd (omega arith)
  bound_from_lem (suc fuel) budget r h b = elim (Bool-cases (fits encoded_size budget r)) [
    | inl fit ↦ (
      r,
      rw (fit, bound_from),
      record { shape = b; fitting = inl fit; part = IsPart-refl r; whole = λ _. refl },
    )
    | inr big ↦ elim (Option-cases (shrink r)) [
      | inl least ↦ (
        smallest_result r,
        rw (big, least, bound_from),
        record {
          shape = smallest_result-IsBounded r;
          fitting = inr refl;
          part = smallest_result-IsPart r;
          whole = λ fit. absurd (false≢true (sym big ∙ fit));
        },
      )
      | inr (smaller, shrunk) ↦
          let step = shrink_lem r smaller shrunk b in
          let (out, ends, within) =
            bound_from_lem fuel budget smaller (omega (arith, step.1)) step.0 in
          (
            out,
            rw (big, shrunk, bound_from) ends,
            IsWithin-shrink budget r smaller out big step within,
          )
    ]
  ]

  -- With a fuel of one more than the rows and columns of the normalized input the loop ends, and the
  -- answer is what it ends with. It has at most 64 columns with distinct names and at most 100 rows,
  -- each with exactly the columns' keys; it is within the byte budget or the smallest result; its
  -- columns and its rows are the first ones of the normalized input, and it is the normalized input
  -- where that fits and wherever it is not marked truncated. No column and no value stands in it that
  -- the input does not have, but null for a missing one.
  pub bound_query_result_within-IsWithin :
      (result : QueryTableResult) (max_bytes : ℤ)
      → (bound_from encoded_size
            (suc (
              length (normalize_result_shape result).rows
              + length (normalize_result_shape result).columns))
            (byte_budget max_bytes)
            (normalize_result_shape result)
          ≡ some (bound_query_result_within encoded_size result max_bytes))
        × IsWithin encoded_size
            (byte_budget max_bytes)
            (normalize_result_shape result)
            (bound_query_result_within encoded_size result max_bytes)
        × IsDrawn result (bound_query_result_within encoded_size result max_bytes)
  unfolding bound_query_result_within
  bound_query_result_within-IsWithin result max_bytes =
      let start = normalize_result_shape result in
      let (out, ends, within) =
        bound_from_lem (rounds start) (byte_budget max_bytes) start (omega arith)
          (normalize_result_shape-IsBounded result) in
      rw (ends, bound_query_result_within)
        (refl, within, normalized_part-IsDrawn result out within.part)
