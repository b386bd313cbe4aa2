-- ===== src/Query/Outcome/Drops.antt =====
-- The loop that fits a result into an answer around it, of `boundResultEnvelope` in actions/actions.go
-- and of `boundMCPQueryOutput` in mcpserver/tools.go: it drops the last row, or else the last column.
pub mod Ends
pub mod Leaves
use provider_databricks.Prelude.{
  ℕ, zero, suc, if◌then◌else◌, Bool, true, false, not, List, Option, none, some, is_empty, init,
}
use provider_databricks.Query.Outcome.{QueryTableResult, bound_query_result}

-- How the loop ends: with a result that fits, or with nothing left to drop.
pub data Drop : Type 0 where
  fitted : QueryTableResult → Drop
  exhausted : Drop

module _ (encoded_size : QueryTableResult → Option ℕ) where
  unfoldable pub drop_one : QueryTableResult → Option QueryTableResult
  unfolding bound_query_result
  drop_one result =
      if not (is_empty result.rows)
      then some (record result { rows = init result.rows; truncated = true })
      else if not (is_empty result.columns)
      then some
          (record (bound_query_result encoded_size
            (record result { columns = init result.columns })) { truncated = true })
      else none

  -- `none` means that the fuel ran out.
  unfoldable pub drop_from : ℕ → (QueryTableResult → Bool) → QueryTableResult → Option Drop
  unfolding drop_one
  drop_from zero accepts result = none
  drop_from (suc fuel) accepts result = elim (accepts result) [
    | true ↦ some (fitted result)
    | false ↦ elim (drop_one result) [
      | none ↦ some exhausted
      | some smaller ↦ drop_from fuel accepts smaller
    ]
  ]
