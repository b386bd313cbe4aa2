-- ===== src/Failure.antt =====
-- Go errors: a message and the chain that `errors.As` and `errors.Is` walk, outermost first. A link is
-- an error value that the provider tells apart; `fmt.Errorf` with `%w` keeps the chain, without it
-- the chain is empty. Then backend/validation_reason.go, and `SafeStatusMessage` of
-- backend/validation.go with the methods of the error types that it asks.
pub mod Queries
use provider_databricks.Prelude.{
  ℕ, leb, ◌==◌, if◌then◌else◌, Bool, true, false, ◌&&◌, ◌||◌, List, [], ◌∷◌, ◌++◌, Option, none,
  some, Text, runes, is_empty, trim_space, itoa, all,
}

-- What the API server answered, as `apierrors` tells it.
pub data ApiReason : Type 0 where
  not_found forbidden unauthorized other_reason : ApiReason

pub data Link : Type 0 where
  unsupported_table_type_error : (table_type : Text) → Link
  current_user_http_error : (status_code : ℕ) (status : Text) → Link
  warehouse_http_error : (status_code : ℕ) (status warehouse_id : Text) → Link
  table_summary_http_error : (status_code : ℕ) (status : Text) → Link
  statement_http_error : (status_code : ℕ) (status : Text) → Link
  statement_state_error : (state : Text) → Link
  net_error : Link
  canceled : Link
  deadline_exceeded : Link
  validation_error : (code message : Text) → Link
  api_status : ApiReason → Link
  action_error : (code message : Text) (retryable : Bool) (status : ℕ) → Link
  import_error : (status : ℕ) (reason message : Text) → Link

pub record Failure : Type 0 where
  pub message : Text
  pub chain : List Link

-- `fmt.Errorf("…")`, with no `%w`.
abbrev pub plain : Text → Failure
plain message = record { message = message; chain = [] }

-- `fmt.Errorf("<prefix>%w", err)`
abbrev pub wrapped : Text → Failure → Failure
wrapped prefix e = record { message = prefix ++ e.message; chain = e.chain }

-- `errors.As`: the first link of a kind.
abbrev pub first_of_kind {ℓ} : {A : Type ℓ} → (Link → Option A) → List Link → Option A
first_of_kind kind [] = none
first_of_kind kind (l ∷ ls) = elim (kind l) [ none ↦ first_of_kind kind ls | some a ↦ some a ]

abbrev pub has_kind {ℓ} : {A : Type ℓ} → (Link → Option A) → List Link → Bool
has_kind kind ls = elim (first_of_kind kind ls) [ none ↦ false | some _ ↦ true ]

abbrev pub as_canceled : Link → Option (Unit {0})
as_canceled canceled = some tt
as_canceled _ = none

abbrev pub as_deadline : Link → Option (Unit {0})
as_deadline deadline_exceeded = some tt
as_deadline _ = none

-- `net.Error`; the error of a passed deadline is one.
abbrev pub as_net : Link → Option (Unit {0})
as_net net_error = some tt
as_net deadline_exceeded = some tt
as_net _ = none

abbrev pub as_unsupported : Link → Option Text
as_unsupported (unsupported_table_type_error t) = some t
as_unsupported _ = none

abbrev pub as_api_status : Link → Option ApiReason
as_api_status (api_status reason) = some reason
as_api_status _ = none

-- `HTTPStatusCode()` of `httpStatusCoder`.
abbrev pub as_http_status : Link → Option ℕ
as_http_status (current_user_http_error code _) = some code
as_http_status (warehouse_http_error code _ _) = some code
as_http_status (table_summary_http_error code _) = some code
as_http_status (statement_http_error code _) = some code
as_http_status _ = none

-- `apierrors.IsNotFound` and its kin ask the first API status of the chain.
abbrev pub has_reason : (ApiReason → Bool) → Failure → Bool
has_reason p e = elim (first_of_kind as_api_status e.chain) [ none ↦ false | some r ↦ p r ]

abbrev pub is_not_found : Failure → Bool
is_not_found = has_reason (elim [ not_found ↦ true | _ ↦ false ])

abbrev pub is_forbidden : Failure → Bool
is_forbidden = has_reason (elim [ forbidden ↦ true | _ ↦ false ])

abbrev pub is_unauthorized : Failure → Bool
is_unauthorized = has_reason (elim [ unauthorized ↦ true | _ ↦ false ])

-- The reasons of the conditions. The first five are the contract of `ClassifyValidationError`.
pub data Reason : Type 0 where
  databricks_unavailable access_denied resource_not_found : Reason
  unsupported_table_type validation_failed : Reason
  ready credential_unavailable validator_unavailable auth_type_unsupported : Reason
  connection_unavailable connection_not_ready : Reason
  warehouse_unavailable warehouse_not_ready warehouse_connection_mismatch schema_truncated : Reason

-- `reason == ReasonDatabricksUnavailable`
abbrev pub is_databricks_unavailable : Reason → Bool
is_databricks_unavailable databricks_unavailable = true
is_databricks_unavailable _ = false

-- `reason == ReasonUnsupportedTableType`
abbrev pub is_unsupported_table_type : Reason → Bool
is_unsupported_table_type unsupported_table_type = true
is_unsupported_table_type _ = false

abbrev pub classify_http_status : ℕ → Reason
classify_http_status status =
    if status == 408 || status == 429 || leb 500 status && leb status 599
    then databricks_unavailable
    else if status == 401 || status == 403
    then access_denied
    else if status == 404
    then resource_not_found
    else validation_failed

abbrev classify_network : List Link → Reason
classify_network chain =
    if has_kind as_net chain || has_kind as_deadline chain
    then databricks_unavailable
    else validation_failed

-- On an error; the source answers `ValidationFailed` for `nil`, too.
unfoldable pub classify_validation_error : Option Failure → Reason
classify_validation_error none = validation_failed
classify_validation_error (some e) =
    if has_kind as_canceled e.chain
    then validation_failed
    else if has_kind as_unsupported e.chain
    then unsupported_table_type
    else elim (first_of_kind as_http_status e.chain) [
      | some status ↦ classify_http_status status
      | none ↦ classify_network e.chain
    ]

-- A numeric id is the workspace org id, pasted by mistake.
unfoldable pub warehouse_id_looks_like_org_id : Text → Bool
warehouse_id_looks_like_org_id id =
    if is_empty id then false else all (λ r. leb b'0' r && leb r b'9') id

abbrev unknown_if_empty : Text → Text
unknown_if_empty t = if is_empty t then runes "UNKNOWN" else t

-- `to_upper` is `strings.ToUpper`, `quote` is the verb `%q`.
module _ (quote to_upper : Text → Text) where
  unfoldable pub unsupported_message : Text → Text
  unfolding trim_space
  unsupported_message table_type =
      runes "Databricks table type "
      ++ (quote (unknown_if_empty (to_upper (trim_space table_type)))
          ++ runes " is not supported by query_table/v1; use a standard table or view")

  unfoldable pub warehouse_message : ℕ → Text → Text → Text
  unfolding warehouse_id_looks_like_org_id
  warehouse_message status_code status id =
      let message = runes "databricks warehouse validation failed: " ++ status in
      let missing =
        message
        ++ runes
            " — no SQL warehouse with this ID in the workspace. The warehouse ID is the 16-character hex value from SQL Warehouses → Connection details (/sql/1.0/warehouses/<id>)" in
      if status_code == 404
      then (if warehouse_id_looks_like_org_id id
          then missing
            ++ runes
                "; a purely numeric value is usually the workspace org ID from the ?o= URL parameter, not a warehouse ID"
          else missing)
      else message

  -- `SafeStatusMessage()` of `statusSafeError`.
  abbrev pub as_status_safe : Link → Option Text
  as_status_safe (unsupported_table_type_error t) = some (unsupported_message t)
  as_status_safe (current_user_http_error _ status) =
      some (runes "databricks credential validation failed: " ++ status)
  as_status_safe (warehouse_http_error code status id) = some (warehouse_message code status id)
  as_status_safe (table_summary_http_error _ status) =
      some (runes "databricks table summary validation failed: " ++ status)
  as_status_safe (statement_http_error _ status) =
      some (runes "databricks statement failed: " ++ status)
  as_status_safe (statement_state_error state) = some (
      if is_empty state
      then runes "databricks statement did not complete"
      else runes "databricks statement did not complete: " ++ state)
  as_status_safe _ = none

  abbrev pub status_or_message : Failure → Text
  status_or_message e = elim (first_of_kind as_http_status e.chain) [
    | some code ↦ runes "databricks validation failed: HTTP " ++ itoa code
    | none ↦ e.message
  ]

  -- The part of `SafeStatusMessage` below the test for `nil`.
  unfoldable pub safe_status_message : Failure → Text
  unfolding unsupported_message warehouse_message itoa
  safe_status_message e = elim (first_of_kind as_status_safe e.chain) [
    | none ↦ status_or_message e
    | some safe ↦ if is_empty (trim_space safe) then status_or_message e else trim_space safe
  ]
