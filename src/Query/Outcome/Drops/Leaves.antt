-- ===== src/Query/Outcome/Drops/Leaves.antt =====
-- What the loop of Query/Outcome/Drops leaves of a bounded result.
use provider_databricks.Prelude.{
  ℕ, zero, suc, ◌≡◌, refl, subst, inl, inr, Bool, true, List, [], ◌∷◌, Option, some, init,
  length-init, Text, arith, Bool-cases, Option-cases, some-injective, All-init, IsPrefix,
  IsPrefix-refl, IsPrefix-trans, IsPrefix-nil, init-IsPrefix, pos,
}
use provider_databricks.Query.Outcome.{
  QueryColumn, Row, QueryTableResult, normalize_result_shape, bound_query_result, max_query_bytes,
  rows_for_columns,
}
use provider_databricks.Query.Outcome.Shape.{
  IsBounded, Distinct-init, normalize_result_shape-columns,
}
use provider_databricks.Query.Outcome.Parts.{IsPart, HasName, IsPart-refl, IsPart-trans}
use provider_databricks.Query.Outcome.Bounds.{IsWithin, bound_query_result_within-IsWithin}
use provider_databricks.Query.Outcome.Drops.{fitted, exhausted, drop_one, drop_from}

fitted-injective : {a b : QueryTableResult} → fitted a ≡ fitted b → a ≡ b
fitted-injective h = cc

exhausted≢fitted : {a : QueryTableResult} → exhausted ≡ fitted a → ⊥
exhausted≢fitted h = cc

module _ (encoded_size : QueryTableResult → Option ℕ) where
  pub bound_query_result-IsWithin :
      (r : QueryTableResult)
      → IsWithin encoded_size max_query_bytes
          (normalize_result_shape r)
          (bound_query_result encoded_size r)
  unfolding bound_query_result
  bound_query_result-IsWithin r =
      (bound_query_result_within-IsWithin encoded_size r (pos max_query_bytes)).1

  abbrev made : Text → Text → List QueryColumn → List Row → Bool → QueryTableResult
  made version ref columns rows truncated = record {
    action_version = version;
    table_ref = ref;
    columns = columns;
    rows = rows;
    truncated = truncated;
  }

  -- A marked part of a bounded result, bounded too.
  abbrev LeavesOne : QueryTableResult → QueryTableResult → Type 0
  LeavesOne r smaller = IsBounded smaller × IsPart r smaller

  shaped_rows :
      (version ref : Text) (columns : List QueryColumn) (truncated : Bool)
      → (normalize_result_shape (made version ref columns [] truncated)).rows ≡ []
  unfolding normalize_result_shape rows_for_columns
  shaped_rows version ref columns truncated = refl

  shaped_name : (r out : QueryTableResult) → HasName (normalize_result_shape r) out → HasName r out
  unfolding normalize_result_shape
  shaped_name r out h = h

  fewer_columns :
      (version ref : Text) (c : QueryColumn) (cs : List QueryColumn) (truncated : Bool)
      (b : QueryTableResult)
      → IsBounded (made version ref (c ∷ cs) [] truncated)
      → IsWithin encoded_size max_query_bytes
          (normalize_result_shape (made version ref (init (c ∷ cs)) [] truncated))
          b
      → LeavesOne (made version ref (c ∷ cs) [] truncated) (record b { truncated = true })
  fewer_columns version ref c cs truncated b bounded within =
      let less = made version ref (init (c ∷ cs)) [] truncated in
      let same =
        normalize_result_shape-columns less (omega (arith, length-init c cs, bounded.few_columns))
          (Distinct-init (c ∷ cs) bounded.distinct) in
      let rows =
        subst (IsPrefix b.rows) (shaped_rows version ref (init (c ∷ cs)) truncated)
          within.part.first_rows in
      (
        record {
          few_columns = within.shape.few_columns;
          few_rows = within.shape.few_rows;
          distinct = within.shape.distinct;
          aligned = within.shape.aligned;
        },
        record {
          named = shaped_name less b within.part.named;
          first_columns =
              IsPrefix-trans b.columns (init (c ∷ cs)) (c ∷ cs)
                (subst (IsPrefix b.columns) same within.part.first_columns)
                (init-IsPrefix (c ∷ cs));
          first_rows = rows;
          whole_rows = inr (IsPrefix-nil b.rows rows);
          honest = inr refl;
        },
      )

  drop_one_leaves :
      (version ref : Text) (columns : List QueryColumn) (rows : List Row) (truncated : Bool)
      (smaller : QueryTableResult)
      → drop_one encoded_size (made version ref columns rows truncated) ≡ some smaller
      → IsBounded (made version ref columns rows truncated)
      → LeavesOne (made version ref columns rows truncated) smaller
  unfolding drop_one
  drop_one_leaves version ref [] [] truncated smaller h b = cc
  drop_one_leaves version ref (c ∷ cs) [] truncated smaller h b =
      subst (LeavesOne (made version ref (c ∷ cs) [] truncated)) (some-injective h) (
        fewer_columns version ref c cs truncated _ b
          (bound_query_result-IsWithin (made version ref (init (c ∷ cs)) [] truncated)))
  drop_one_leaves version ref columns (x ∷ xs) truncated smaller h b =
      subst (LeavesOne (made version ref columns (x ∷ xs) truncated)) (some-injective h) (
        record {
          few_columns = b.few_columns;
          few_rows = omega (arith, length-init x xs, b.few_rows);
          distinct = b.distinct;
          aligned = All-init _ (x ∷ xs) b.aligned;
        },
        record {
          named = inl (refl, refl);
          first_columns = IsPrefix-refl columns;
          first_rows = init-IsPrefix (x ∷ xs);
          whole_rows = inl refl;
          honest = inr refl;
        },
      )

  -- Of a bounded result the loop leaves a part, which is marked unless it is the result itself.
  pub drop_from-IsPart :
      (fuel : ℕ) (accepts : QueryTableResult → Bool) (r out : QueryTableResult)
      → IsBounded r
      → drop_from encoded_size fuel accepts r ≡ some (fitted out)
      → IsPart r out
  unfolding drop_from
  drop_from-IsPart zero accepts r out b h = cc
  drop_from-IsPart (suc fuel) accepts r out b h = elim (Bool-cases (accepts r)) [
    | inl fit ↦
        let same : some (fitted r) ≡ some (fitted out) = rw (fit, drop_from) at h in
        subst (IsPart r) (fitted-injective (some-injective same)) (IsPart-refl r)
    | inr big ↦ elim (Option-cases (drop_one encoded_size r)) [
      | inl least ↦
          let stopped : some exhausted ≡ some (fitted out) = rw (big, least, drop_from) at h in
          absurd (exhausted≢fitted (some-injective stopped))
      | inr (smaller, dropped) ↦
          let (bounded, part) =
            drop_one_leaves r.action_version r.table_ref r.columns r.rows r.truncated smaller
              dropped b in
          let rest : drop_from encoded_size fuel accepts smaller ≡ some (fitted out) =
            rw (big, dropped, drop_from) at h in
          IsPart-trans r smaller out part (drop_from-IsPart fuel accepts smaller out bounded rest)
    ]
  ]
