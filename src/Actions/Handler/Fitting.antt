-- ===== src/Actions/Handler/Fitting.antt =====
-- `boundResultEnvelope` of actions/actions.go.
use provider_databricks.Prelude.{
  ℕ, ◌+◌, ◌<◌, leb, leb→le, true, false, false≢true, ◌≡◌, ◌∙◌, refl, sym, ap, subst, Option, none,
  some, some≢none, some-injective, arith,
}
use provider_databricks.Query.Outcome.{QueryTableResult, max_query_bytes, rounds}
use provider_databricks.Query.Outcome.Shape.{IsBounded}
use provider_databricks.Query.Outcome.Parts.{IsPart}
use provider_databricks.Query.Outcome.Drops.{Drop, fitted, exhausted, drop_from}
use provider_databricks.Query.Outcome.Drops.Leaves.{drop_from-IsPart}
use provider_databricks.Query.Outcome.Drops.Ends.{Ends, drop_from-Ends}
use provider_databricks.Actions.Handler.{Envelope, bound_result_envelope, bounded, fits_envelope}

module _ (encoded_size : QueryTableResult → Option ℕ) (envelope_size : Envelope → Option ℕ) where
  -- The envelope with a part of the result, which is marked unless it is the result, within the budget.
  abbrev pub FitsInto : Envelope → QueryTableResult → Envelope → Type 0
  FitsInto env result out =
      (shown : QueryTableResult) × (out ≡ record env { result = some shown })
      × IsPart result shown
      × ((n : ℕ) × (envelope_size out ≡ some n) × (n < max_query_bytes))

  fits_envelope_size :
      (env : Envelope) (result : QueryTableResult)
      → fits_envelope encoded_size envelope_size env result ≡ true
      → (n : ℕ) × (envelope_size (record env { result = some result }) ≡ some n)
        × (n < max_query_bytes)
  fits_envelope_size env result h =
      size_within (envelope_size (record env { result = some result })) h
    where
      size_within :
          (size : Option ℕ)
          → elim size [ none ↦ false | some n ↦ leb (n + 1) max_query_bytes ] ≡ true
          → (n : ℕ) × (size ≡ some n) × (n < max_query_bytes)
      size_within none h = absurd (false≢true h)
      size_within (some n) h = (n, refl, omega (arith, leb→le _ _ h))

  pub bound_result_envelope-FitsInto :
      (env out : Envelope) (result : QueryTableResult)
      → IsBounded result
      → bound_result_envelope encoded_size envelope_size env result ≡ some out
      → FitsInto env result out
  unfolding bound_result_envelope
  bound_result_envelope-FitsInto env out result small h =
      let accepts = fits_envelope encoded_size envelope_size env in
      let (end, ends, good) =
        drop_from-Ends encoded_size (rounds result) accepts result (omega arith) in
      ended end good ends (ap (bounded encoded_size envelope_size env) (sym ends) ∙ h)
    where
      ended :
          (end : Drop)
          → Ends (fits_envelope encoded_size envelope_size env) result end
          → drop_from encoded_size
              (rounds result)
              (fits_envelope encoded_size envelope_size env)
              result
            ≡ some end
          → bounded encoded_size envelope_size env (some end) ≡ some out
          → FitsInto env result out
      ended (fitted shown) (fit, kept) ends same =
          subst (FitsInto env result) (some-injective same) (
            shown,
            refl,
            drop_from-IsPart encoded_size (rounds result)
                (fits_envelope encoded_size envelope_size env) result shown small ends,
            fits_envelope_size env shown fit,
          )
      ended exhausted good ends same = absurd (some≢none (sym same))
