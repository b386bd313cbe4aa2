-- ===== src/Tenant/Sanitize/Missing.antt =====
-- What `sanitizeActionError` makes of the table that `shared.ResolveTable` does not find.
use provider_databricks.Prelude.{
  true, false, Text, runes, is_empty, trim_space, err, ◌≡◌, refl, ◌⊎◌, inl, inr, Bool-cases, ◌++◌,
}
use provider_databricks.Failure.{Failure, plain, is_not_found}
use provider_databricks.Shared.{ClusterApi, get_failure, resolve_table}
use provider_databricks.Tenant.Sanitize.{
  sanitize_message, sanitize_api, sanitize_validation, sanitize_context, sanitize_action_error,
  says_not_ready,
}

-- A plain error counts as a resource that is not ready or as a failure of the backend.
plain_status :
    (lower : Text → Text) (message : Text)
    → ((sanitize_action_error lower (plain message)).status ≡ 409)
      ⊎ ((sanitize_action_error lower (plain message)).status ≡ 502)
unfolding sanitize_action_error sanitize_context sanitize_validation sanitize_api sanitize_message
plain_status lower message = elim (Bool-cases (says_not_ready lower message)) [
  | inl hit ↦ inl (rw hit refl)
  | inr miss ↦ inr (rw miss refl)
]

-- A table that the API server does not find, asked for by a name that is not blank, is an error that
-- leaves with status 409 or 502.
pub resolve_table-missing :
    (quote lower : Text → Text) (api : ClusterApi) (table_ref : Text) (e : Failure)
    → is_empty (trim_space table_ref) ≡ false
    → api.get_table (trim_space table_ref) ≡ err e
    → is_not_found e ≡ true
    → (failure : Failure) × (resolve_table quote api table_ref ≡ err failure)
      × (((sanitize_action_error lower failure).status ≡ 409)
          ⊎ ((sanitize_action_error lower failure).status ≡ 502))
unfolding resolve_table get_failure
resolve_table-missing quote lower api table_ref e named got missing =
    let message =
      runes "tableRef" ++ (runes " " ++ (quote (trim_space table_ref) ++ runes " not found")) in
    (plain message, rw (named, got, missing, resolve_table), plain_status lower message)
