-- ===== src/Failure/Queries.antt =====
-- The errors of queryapi/query.go as failures: one is a `ValidationError`, the others are plain.
use provider_databricks.Prelude.{List, [], ◌∷◌, Text, runes, Result, ok, err, ok-injective, ◌≡◌, ap}
use provider_databricks.Query.Errors.{QueryError, not_in_schema, error_text}
use provider_databricks.Failure.{Failure, Link, validation_error}

-- `ErrorCodeSchemaProjectionInvalid`
abbrev error_code_schema_projection_invalid : Text
error_code_schema_projection_invalid = runes "schema_projection_invalid"

-- `quote` is the verb `%q`.
module _ (quote : Text → Text) where
  abbrev query_link : QueryError → List Link
  query_link (not_in_schema c) =
      validation_error error_code_schema_projection_invalid (error_text quote (not_in_schema c))
      ∷ []
  query_link _ = []

  abbrev pub query_failure : QueryError → Failure
  query_failure e = record { message = error_text quote e; chain = query_link e }

  abbrev pub or_query_failure {ℓ} : {A : Type ℓ} → Result QueryError A → Result Failure A
  or_query_failure (ok a) = ok a
  or_query_failure (err e) = err (query_failure e)

  pub or_query_failure-eq-ok {ℓ} :
      {A : Type ℓ} (r : Result QueryError A) {a : A} → or_query_failure r ≡ ok a → r ≡ ok a
  or_query_failure-eq-ok (ok a) h = ap ok (ok-injective h)
  or_query_failure-eq-ok (err e) h = cc
