-- ===== src/Tenant/Authorize/Reviews.antt =====
-- What a passed authorization rests on.
use provider_databricks.Prelude.{
  true, none, Text, runes, is_empty, trim_space, Result, ok, err, ◌≡◌, refl, arith, Result-cases,
  Bool-cases, inl, inr, some≢none,
}
use provider_databricks.Failure.{Failure}
use provider_databricks.Tenant.Authorize.{
  ResourceAttributes, ReviewStatus, read_attributes, action_attributes, authorize_table,
  authorize_table_action, decided,
}

module _
    (authorization_for : (cluster_id token : Text)
      → Result Failure (ResourceAttributes → Result Failure ReviewStatus))
    (forbidden_message : (name reason : Text) → Text) (cluster_id token name : Text) where
  -- The API server, asked as the caller, allowed the access.
  pub record IsAllowed (attributes : ResourceAttributes) : Type 0 where
    pub create_review : ResourceAttributes → Result Failure ReviewStatus
    pub client : authorization_for cluster_id token ≡ ok create_review
    pub status : ReviewStatus
    pub reviewed : create_review attributes ≡ ok status
    pub allowed : status.allowed ≡ true

  decided-none :
      (prefix default : Text) (answer : Result Failure ReviewStatus)
      → decided authorization_for forbidden_message prefix name default answer ≡ none
      → (status : ReviewStatus) × (answer ≡ ok status) × (status.allowed ≡ true)
  decided-none prefix default (err e) h = cc
  decided-none prefix default (ok status) h = (status, refl, ground arith)

  IsAllowed-by :
      (prefix default : Text) (create : ResourceAttributes → Result Failure ReviewStatus)
      → authorization_for cluster_id token ≡ ok create
      → (attributes : ResourceAttributes)
      → decided authorization_for forbidden_message prefix name default (create attributes) ≡ none
      → IsAllowed attributes
  IsAllowed-by prefix default create e attributes h =
      let (status, reviewed, allowed) = decided-none prefix default (create attributes) h in
      record {
        create_review = create;
        client = e;
        status = status;
        reviewed = reviewed;
        allowed = allowed;
      }

  -- A nil error of the first authorization rests on an allowed `get` of the table.
  pub authorize_table-IsAllowed :
      authorize_table authorization_for forbidden_message cluster_id token name ≡ none
      → IsAllowed (read_attributes name)
  unfolding authorize_table
  authorize_table-IsAllowed h = elim (Result-cases (authorization_for cluster_id token)) [
    | inl (create, e) ↦
        IsAllowed-by (runes "authorize table action: ")
          (runes "caller is not allowed to read the imported table") create e (read_attributes name)
          (rw (e, authorize_table) at h)
    | inr (failure, e) ↦ absurd (some≢none (rw (e, authorize_table) at h))
  ]

  -- A nil error of the second rests on an allowed `create` of the action on the table.
  pub authorize_table_action-IsAllowed :
      (action : Text)
      → authorize_table_action authorization_for forbidden_message cluster_id token name action
        ≡ none
      → IsAllowed (action_attributes name (trim_space action))
  unfolding authorize_table_action
  authorize_table_action-IsAllowed action h = elim (Bool-cases (is_empty (trim_space action))) [
    | inl empty ↦ absurd (some≢none (rw (empty, authorize_table_action) at h))
    | inr named ↦ elim (Result-cases (authorization_for cluster_id token)) [
      | inl (create, e) ↦
          IsAllowed-by (runes "authorize table action verb: ")
            (runes "caller is not granted this action on the imported table") create e
            (action_attributes name (trim_space action))
            (rw (named, e, authorize_table_action) at h)
      | inr (failure, e) ↦ absurd (some≢none (rw (named, e, authorize_table_action) at h))
    ]
  ]
