-- ===== src/Controller/Connections/Readiness.antt =====
-- When a reconciled connection reads as ready.
use provider_databricks.Prelude.{
  Bool, true, false, none, some, Text, text_eq, text_eq_iff, Result, ok, ◌≡◌, refl, sym, ◌∙◌,
  >>=-eq-ok, reject_if-eq-ok, true_of_not, Result-cases, ok≢err, ◌⊎◌, inl, inr, runes,
}
use provider_databricks.Failure.{Failure, Reason, ready}
use provider_databricks.Api.{
  ConditionStatus, condition_true, condition_false, condition_validated, condition_ready,
  connection_auth_pat, Connection,
}
use provider_databricks.Shared.{
  ConditionApi, ClusterApi, set_condition, current_condition_true, is_true, resolve_bearer_token,
}
use provider_databricks.Shared.Laws.{current-set_condition, current-set_other}
use provider_databricks.Controller.{Rejection, or_reject-eq-ok, ask_validator-eq-ok}
use provider_databricks.Controller.Connections.{
  ConnectionValidationTarget, ConnectionValidationResult, ConnectionValidator, target_of,
  validation_requeue_after, connection_checks, fail_after, succeed, reconcile_connection,
}

module _ (kube : ConditionApi) where
  -- The gate of the dependents: the condition holds for the current generation.
  abbrev pub reads_true : Connection → Text → Bool
  reads_true conn type =
      current_condition_true kube conn.status.conditions conn.status.observed_generation
        conn.generation type

  -- What both of the settling steps do to the conditions.
  both_read :
      (conn : Connection) (status : ConditionStatus) (reason : Reason) (message : Text)
      → let first =
          set_condition kube conn.status.conditions condition_validated status reason message
            conn.generation in
        let both = set_condition kube first condition_ready status reason message conn.generation in
        (current_condition_true kube both conn.generation conn.generation condition_validated
          ≡ is_true status)
        × (current_condition_true kube both conn.generation conn.generation condition_ready
            ≡ is_true status)
  both_read conn status reason message =
      let first =
        set_condition kube conn.status.conditions condition_validated status reason message
          conn.generation in
      (
        current-set_other kube first condition_ready status reason message conn.generation
              conn.generation conn.generation condition_validated (unfold text_eq in refl)
            ∙ current-set_condition kube conn.status.conditions condition_validated status reason
                message conn.generation,
        current-set_condition kube first condition_ready status reason message conn.generation,
      )

  fail_after-reads :
      (conn : Connection) (r : Rejection)
      → (reads_true (fail_after kube conn r) condition_validated ≡ false)
        × (reads_true (fail_after kube conn r) condition_ready ≡ false)
  unfolding fail_after
  fail_after-reads conn r = both_read conn condition_false r.reason r.message

  succeed-reads :
      (conn : Connection) (result : ConnectionValidationResult)
      → (reads_true (succeed kube conn result) condition_validated ≡ true)
        × (reads_true (succeed kube conn result) condition_ready ≡ true)
  unfolding succeed
  succeed-reads conn result = both_read conn condition_true ready (runes "credential authenticated")

module _ (quote : Text → Text) where
  -- The credential was read and the validator accepted it.
  pub record IsAccepted (validator : ConnectionValidator) (api : ClusterApi) (conn : Connection)
      (result : ConnectionValidationResult) : Type 0 where
    pub auth : conn.spec.auth_type ≡ connection_auth_pat
    pub token : Text
    pub resolved : resolve_bearer_token quote api conn ≡ ok token
    pub validate_connection : ConnectionValidationTarget → Result Failure ConnectionValidationResult
    pub configured : validator ≡ some validate_connection
    pub accepted : validate_connection (target_of conn token) ≡ ok result

module _ (quote to_upper : Text → Text) where
  checks_sound :
      (validator : ConnectionValidator) (api : ClusterApi) (conn : Connection)
      (result : ConnectionValidationResult)
      → connection_checks quote to_upper validator api conn ≡ ok result
      → IsAccepted quote validator api conn result
  unfolding connection_checks
  checks_sound validator api conn result h =
      let (pat, h1) = reject_if-eq-ok _ _ _ h in
      let (token, reading, h2) = >>=-eq-ok _ _ h1 in
      let (v, configured, accepted) =
        ask_validator-eq-ok quote to_upper validation_requeue_after _ validator
          (target_of conn token) h2 in
      record {
        auth = (text_eq_iff conn.spec.auth_type connection_auth_pat).0 (true_of_not pat);
        token = token;
        resolved = or_reject-eq-ok _ _ _ reading;
        validate_connection = v;
        configured = configured;
        accepted = accepted;
      }

  checks_complete :
      {validator : ConnectionValidator} {api : ClusterApi} {conn : Connection}
      {result : ConnectionValidationResult}
      → IsAccepted quote validator api conn result
      → connection_checks quote to_upper validator api conn ≡ ok result
  unfolding connection_checks
  checks_complete a =
      rw ((text_eq_iff _ connection_auth_pat).1 a.auth, a.resolved, a.configured, a.accepted)

-- What one pass leaves in the status of a connection that exists and is not being deleted: either
-- the credential was accepted, and both conditions read true with the workspace of the validator's
-- answer; or it was not, and both read false with no workspace. The spec and the name stay.
pub record IsSettled (quote : Text → Text) (kube : ConditionApi) (validator : ConnectionValidator)
    (api : ClusterApi) (conn conn' : Connection) : Type 0 where
  pub spec : conn'.spec ≡ conn.spec
  pub name : conn'.name ≡ conn.name
  pub generation : conn'.generation ≡ conn.generation
  pub observed : conn'.status.observed_generation ≡ conn.generation
  pub verdict :
      ((result : ConnectionValidationResult) × IsAccepted quote validator api conn result
        × (conn'.status.workspace_id ≡ result.workspace_id)
        × (reads_true kube conn' condition_validated ≡ true)
        × (reads_true kube conn' condition_ready ≡ true))
      ⊎ ((¬ ((result : ConnectionValidationResult) × IsAccepted quote validator api conn result))
          × (conn'.status.workspace_id ≡ runes "")
          × (reads_true kube conn' condition_validated ≡ false)
          × (reads_true kube conn' condition_ready ≡ false))

pub reconcile_connection-IsSettled :
    (quote to_upper : Text → Text) (kube : ConditionApi) (validator : ConnectionValidator)
    (api : ClusterApi) (key : Text) (conn : Connection)
    → api.get_connection key ≡ ok conn
    → conn.deletion_timestamp ≡ none
    → (conn' : Connection) × ((reconcile_connection quote to_upper kube validator api key).updated
        ≡ some conn')
      × IsSettled quote kube validator api conn conn'
unfolding reconcile_connection
reconcile_connection-IsSettled quote to_upper kube validator api key conn got live =
    elim (Result-cases (connection_checks quote to_upper validator api conn)) [
      | inl (result, passed) ↦ (
        succeed kube conn result,
        rw (got, live, passed, reconcile_connection),
        record {
          spec = unfold succeed in refl;
          name = unfold succeed in refl;
          generation = unfold succeed in refl;
          observed = unfold succeed in refl;
          verdict = inl (
            result,
            checks_sound quote to_upper validator api conn result passed,
            unfold succeed in refl,
            (succeed-reads kube conn result).0,
            (succeed-reads kube conn result).1,
          );
        },
      )
      | inr (r, failed) ↦ (
        fail_after kube conn r,
        rw (got, live, failed, reconcile_connection),
        record {
          spec = unfold fail_after in refl;
          name = unfold fail_after in refl;
          generation = unfold fail_after in refl;
          observed = unfold fail_after in refl;
          verdict = inr (
            (λ (result, a). ok≢err (sym (checks_complete quote to_upper a) ∙ failed)),
            unfold fail_after in refl,
            (fail_after-reads kube conn r).0,
            (fail_after-reads kube conn r).1,
          );
        },
      )
    ]
