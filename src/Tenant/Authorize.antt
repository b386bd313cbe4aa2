-- ===== src/Tenant/Authorize.antt =====
-- `AuthorizeTable` and `AuthorizeTableAction` of tenant/action.go.
pub mod Reviews
use provider_databricks.Prelude.{
  ℕ, if◌then◌else◌, Bool, List, [], ◌∷◌, ◌++◌, Option, none, some, Text, runes, is_empty,
  trim_space, Result, ok, err,
}
use provider_databricks.Failure.{Failure, plain, wrapped, api_status, forbidden}

-- `authorizationv1.ResourceAttributes`
pub record ResourceAttributes : Type 0 where
  pub group : Text
  pub version : Text
  pub resource : Text
  pub subresource : Text
  pub name : Text
  pub verb : Text

-- The status of a SelfSubjectAccessReview.
pub record ReviewStatus : Type 0 where
  pub allowed : Bool
  pub reason : Text

abbrev pub group_name : Text
group_name = runes "databricks.faros.sh"

abbrev pub api_version : Text
api_version = runes "v1alpha1"

-- `get` on the table itself.
abbrev pub read_attributes : Text → ResourceAttributes
read_attributes name = record {
  group = group_name;
  version = api_version;
  resource = runes "tables";
  subresource = runes "";
  name = name;
  verb = runes "get";
}

-- `create` on the action as a subresource of the table.
abbrev pub action_attributes : Text → Text → ResourceAttributes
action_attributes name action = record {
  group = group_name;
  version = api_version;
  resource = runes "tables";
  subresource = action;
  name = name;
  verb = runes "create";
}

-- `authorization_for` is `AuthorizationFor`, a client that creates reviews as the caller;
-- `forbidden_message` the text of `apierrors.NewForbidden`.
module _
    (authorization_for : (cluster_id token : Text)
      → Result Failure (ResourceAttributes → Result Failure ReviewStatus))
    (forbidden_message : (name reason : Text) → Text) where
  abbrev denied : Text → Text → ReviewStatus → Failure
  denied name default status =
      let reason = trim_space status.reason in
      record {
        message = forbidden_message name (if is_empty reason then default else reason);
        chain = api_status forbidden ∷ [];
      }

  abbrev decided : (prefix name default : Text) → Result Failure ReviewStatus → Option Failure
  decided prefix name default (err e) = some (wrapped prefix e)
  decided prefix name default (ok status) =
      if status.allowed then none else some (denied name default status)

  -- A nil error is `none`.
  unfoldable pub authorize_table : (cluster_id token name : Text) → Option Failure
  unfolding trim_space
  authorize_table cluster_id token name = elim (authorization_for cluster_id token) [
    | err e ↦ some e
    | ok create_review ↦
        decided (runes "authorize table action: ") name
          (runes "caller is not allowed to read the imported table")
          (create_review (read_attributes name))
  ]

  unfoldable pub authorize_table_action : (cluster_id token name action : Text) → Option Failure
  unfolding trim_space
  authorize_table_action cluster_id token name action =
      let trimmed = trim_space action in
      if is_empty trimmed
      then some (plain (runes "action name is required for authorization"))
      else elim (authorization_for cluster_id token) [
        | err e ↦ some e
        | ok create_review ↦
            decided (runes "authorize table action verb: ") name
              (runes "caller is not granted this action on the imported table")
              (create_review (action_attributes name trimmed))
      ]
