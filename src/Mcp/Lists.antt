-- ===== src/Mcp/Lists.antt =====
-- What `boundMCPListOutput` of mcpserver/tools.go answers.
use provider_databricks.Prelude.{
  ℕ, zero, suc, ◌≤◌, ◌<◌, leb→le, Bool-cases, ◌≡◌, ◌∙◌, refl, sym, ap, subst, inl, inr, ◌⊎◌, Bool,
  true, false≢true, List, [], ◌∷◌, ◌++◌, Option, none, some, arith, length, init, length-init,
  append_assoc, append-nil,
}
use provider_databricks.Query.Outcome.{max_query_bytes}
use provider_databricks.Mcp.{
  OutputJson, TableSummary, ListTablesOutput, insert_summary, sort_summaries, fits_list,
  within_budget, mcp_list_envelope_bytes, bound_list_from, or_nothing, bound_mcp_list_output,
}

length-insert_summary :
    (s : TableSummary) (ts : List TableSummary) → length (insert_summary s ts) ≡ suc (length ts)
unfolding insert_summary
length-insert_summary s [] = refl
length-insert_summary s (t ∷ ts) = ground (arith, length-insert_summary s ts)

length-sort_summaries : (ts : List TableSummary) → length (sort_summaries ts) ≡ length ts
unfolding sort_summaries
length-sort_summaries [] = refl
length-sort_summaries (t ∷ ts) =
    length-insert_summary t (sort_summaries ts) ∙ ap suc (length-sort_summaries ts)

init-append {ℓ} :
    {A : Type ℓ} (x : A) (xs : List A) → (last : A) × (x ∷ xs ≡ init (x ∷ xs) ++ last ∷ [])
init-append x [] = (x, refl)
init-append x (y ∷ ys) = let rest = init-append y ys in (rest.0, ap (λ (t : List _). x ∷ t) rest.1)

module _ (json : OutputJson) where
  -- The whole wire message of the list is within the budget.
  abbrev pub IsWithinBudget : ListTablesOutput → Type 0
  IsWithinBudget output =
      (size : ℕ) × (mcp_list_envelope_bytes json output ≡ some size) × (size ≤ max_query_bytes)

  -- The first tables of a list, marked unless they are all; in the budget, or none at all.
  abbrev pub Shows : List TableSummary → Bool → ListTablesOutput → Type 0
  Shows tables truncated output =
      ((rest : List TableSummary) × (tables ≡ output.tables ++ rest))
      × (((output.tables ≡ tables) × (output.truncated ≡ truncated)) ⊎ (output.truncated ≡ true))
      × (IsWithinBudget output ⊎ (output.tables ≡ []))

  within_size :
      (size : Option ℕ)
      → within_budget json size ≡ true
      → (n : ℕ) × (size ≡ some n) × (n ≤ max_query_bytes)
  within_size none h = absurd (false≢true h)
  within_size (some n) h = (n, refl, leb→le _ _ h)

  Shows-init :
      (x : TableSummary) (xs : List TableSummary) (truncated : Bool) (output : ListTablesOutput)
      → Shows (init (x ∷ xs)) true output
      → Shows (x ∷ xs) truncated output
  Shows-init x xs truncated output ((rest, front), marked, fit) =
      let (last, whole) = init-append x xs in
      (
        (
          rest ++ last ∷ [],
          whole
              ∙ (ap (λ (t : List TableSummary). t ++ last ∷ []) front
                  ∙ append_assoc output.tables rest (last ∷ [])),
        ),
        inr (elim marked [ inl all ↦ all.1 | inr yes' ↦ yes' ]),
        fit,
      )

  bound_list_from-Shows :
      (fuel : ℕ) (tables : List TableSummary) (truncated : Bool)
      → length tables < fuel
      → (output : ListTablesOutput) × (bound_list_from json fuel
            (record { tables = tables; truncated = truncated })
          ≡ some output)
        × Shows tables truncated output
  unfolding bound_list_from
  bound_list_from-Shows zero tables truncated h = absurd (omega arith)
  bound_list_from-Shows (suc fuel) [] truncated h =
      elim (Bool-cases (fits_list json (record { tables = []; truncated = truncated }))) [
        | inl fit ↦ (
          record { tables = []; truncated = truncated },
          rw (fit, bound_list_from) refl,
          (([], refl), inl (refl, refl), inr refl),
        )
        | inr big ↦ (
          record { tables = []; truncated = true },
          rw (big, bound_list_from) refl,
          (([], refl), inr refl, inr refl),
        )
      ]
  bound_list_from-Shows (suc fuel) (x ∷ xs) truncated h =
      elim (Bool-cases (fits_list json (record { tables = x ∷ xs; truncated = truncated }))) [
        | inl fit ↦ (
          record { tables = x ∷ xs; truncated = truncated },
          rw (fit, bound_list_from) refl,
          (([], sym (append-nil (x ∷ xs))), inl (refl, refl), inl (within_size _ fit)),
        )
        | inr big ↦
            let (output, ends, shows) =
              bound_list_from-Shows fuel (init (x ∷ xs)) true (omega (arith, length-init x xs)) in
            (output, rw (big, bound_list_from) ends, Shows-init x xs truncated output shows)
      ]

  -- The output has the first of the sorted tables, is marked unless it has them all, and its wire
  -- message is within the budget or it has no table.
  pub bound_mcp_list_output-Shows :
      (tables : List TableSummary) (truncated : Bool)
      → Shows (sort_summaries tables) truncated (bound_mcp_list_output json tables truncated)
  unfolding bound_mcp_list_output
  bound_mcp_list_output-Shows tables truncated =
      let (output, ends, shows) =
        bound_list_from-Shows (suc (length tables)) (sort_summaries tables) truncated
          (omega (arith, length-sort_summaries tables)) in
      subst
        (λ (o : Option ListTablesOutput).
          Shows (sort_summaries tables) truncated (or_nothing json o))
        (sym ends) shows
