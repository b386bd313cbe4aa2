-- ===== src/Mcp/Fitting.antt =====
-- What `boundMCPQueryOutput` of mcpserver/tools.go answers.
use provider_databricks.Prelude.{
  ℕ, ◌≤◌, leb→le, ◌≡◌, refl, sym, subst, inl, inr, ◌⊎◌, true, false, false≢true, Option, none, some,
  [], arith, Text,
}
use provider_databricks.Query.Outcome.{
  QueryTableResult, bound_query_result, max_query_bytes, rounds,
}
use provider_databricks.Query.Outcome.Drawn.{IsDrawn, normalized_part-IsDrawn}
use provider_databricks.Query.Outcome.Parts.{IsPart}
use provider_databricks.Query.Outcome.Drops.{Drop, fitted, exhausted, drop_from}
use provider_databricks.Query.Outcome.Drops.Leaves.{drop_from-IsPart, bound_query_result-IsWithin}
use provider_databricks.Query.Outcome.Drops.Ends.{Ends, drop_from-Ends}
use provider_databricks.Mcp.{
  OutputJson, QueryTableOutput, query_output, smallest_output, fits_query, within_budget, output_of,
  mcp_query_envelope_bytes, bound_mcp_query_output,
}

module _ (json : OutputJson) where
  -- The whole wire message of the output is within the budget.
  abbrev pub IsWithinBudget : QueryTableOutput → Type 0
  IsWithinBudget output =
      (size : ℕ) × (mcp_query_envelope_bytes json output ≡ some size) × (size ≤ max_query_bytes)

  within_size :
      (size : Option ℕ)
      → within_budget json size ≡ true
      → (n : ℕ) × (size ≡ some n) × (n ≤ max_query_bytes)
  within_size none h = absurd (false≢true h)
  within_size (some n) h = (n, refl, leb→le _ _ h)

  module _ (encoded_size : QueryTableResult → Option ℕ) (table_ref : Text)
      (result : QueryTableResult) where
    abbrev start : QueryTableResult
    start = bound_query_result encoded_size result

    -- A part of the bounded result, marked unless it is all of it, in the budget; or else not even a result with
    -- neither rows nor columns fits.
    abbrev pub Answers : QueryTableOutput → Type 0
    Answers output =
        ((shown : QueryTableResult) × (output ≡ query_output json table_ref shown)
          × IsPart start shown
          × IsWithinBudget output)
        ⊎ ((output ≡ smallest_output json table_ref)
            × ((last : QueryTableResult) × (last.columns ≡ [])
                × (last.rows ≡ [])
                × (fits_query json table_ref last ≡ false)))

    ended :
        (end : Drop)
        → Ends (fits_query json table_ref) start end
        → drop_from encoded_size (rounds start) (fits_query json table_ref) start ≡ some end
        → Answers (output_of json table_ref (some end))
    ended (fitted shown) (fit, kept) ends = inl (
      shown,
      refl,
      drop_from-IsPart encoded_size (rounds start) (fits_query json table_ref) start shown
          (bound_query_result-IsWithin encoded_size result).shape ends,
      within_size (mcp_query_envelope_bytes json (query_output json table_ref shown)) fit,
    )
    ended exhausted last ends = inr (refl, last)

    -- The output has the first columns and the first rows of the bounded result, is marked unless it has
    -- them all, and its wire message is within the budget; or it is the empty output, where not even a
    -- result without rows and columns fits. No column and no value stands in the bounded result that
    -- the result does not have, but null for a missing one.
    pub bound_mcp_query_output-Answers :
        Answers (bound_mcp_query_output json encoded_size table_ref result) × IsDrawn result start
    unfolding bound_mcp_query_output
    bound_mcp_query_output-Answers =
        let (end, ends, good) =
          drop_from-Ends encoded_size (rounds start) (fits_query json table_ref) start
            (omega arith) in
        (
          subst (λ (e : Option Drop). Answers (output_of json table_ref e)) (sym ends)
              (ended end good ends),
          normalized_part-IsDrawn result start
              (bound_query_result-IsWithin encoded_size result).part,
        )
