-- ===== src/Controller/Warehouses/Readiness.antt =====
-- When a reconciled warehouse reads as ready.
use provider_databricks.Prelude.{
  Bool, true, false, none, some, Text, runes, text_eq_iff, Result, ok, ◌≡◌, refl, sym, ◌∙◌, ◌⊎◌,
  inl, inr, >>=-eq-ok, reject_if-eq-ok, Result-cases, ok≢err, true_of_not,
}
use provider_databricks.Failure.{Failure, ready}
use provider_databricks.Api.{
  condition_true, condition_false, condition_ready, connection_auth_pat, Connection, Warehouse,
}
use provider_databricks.Shared.{
  ConditionApi, ClusterApi, current_condition_true, resolve_connection, resolve_bearer_token,
}
use provider_databricks.Shared.Laws.{current-set_condition}
use provider_databricks.Controller.{or_reject-eq-ok, ask_validator-eq-ok}
use provider_databricks.Controller.Warehouses.{
  WarehouseValidationTarget, WarehouseValidationResult, WarehouseValidator, target_of,
  validation_requeue_after, connection_current, success_message, warehouse_checks, fail_after,
  succeed, reconcile_warehouse,
}

-- The connection is PAT, holds its conditions for its current generation and has a token, with which
-- the validator accepts the warehouse.
pub record IsAccepted (quote : Text → Text) (kube : ConditionApi) (validator : WarehouseValidator)
    (api : ClusterApi) (wh : Warehouse) (result : WarehouseValidationResult) : Type 0 where
  pub conn : Connection
  pub connected : resolve_connection quote api wh.spec.connection_ref ≡ ok conn
  pub auth : conn.spec.auth_type ≡ connection_auth_pat
  pub current : connection_current kube conn ≡ true
  pub token : Text
  pub resolved : resolve_bearer_token quote api conn ≡ ok token
  pub validate_warehouse : WarehouseValidationTarget → Result Failure WarehouseValidationResult
  pub configured : validator ≡ some validate_warehouse
  pub accepted : validate_warehouse (target_of conn wh token) ≡ ok result

module _ (quote to_upper : Text → Text) (kube : ConditionApi) (validator : WarehouseValidator)
    (api : ClusterApi) where
  checks_sound :
      (wh : Warehouse) (result : WarehouseValidationResult)
      → warehouse_checks kube quote to_upper validator api wh ≡ ok result
      → IsAccepted quote kube validator api wh result
  unfolding warehouse_checks
  checks_sound wh result h =
      let (conn, connecting, h1) = >>=-eq-ok _ _ h in
      let (pat, h2) = reject_if-eq-ok _ _ _ h1 in
      let (current, h3) = reject_if-eq-ok _ _ _ h2 in
      let (token, reading, h4) = >>=-eq-ok _ _ h3 in
      let (v, configured, accepted) =
        ask_validator-eq-ok quote to_upper validation_requeue_after _ validator
          (target_of conn wh token) h4 in
      record {
        conn = conn;
        connected = or_reject-eq-ok _ _ _ connecting;
        auth = (text_eq_iff conn.spec.auth_type connection_auth_pat).0 (true_of_not pat);
        current = true_of_not current;
        token = token;
        resolved = or_reject-eq-ok _ _ _ reading;
        validate_warehouse = v;
        configured = configured;
        accepted = accepted;
      }

  checks_complete :
      {wh : Warehouse} {result : WarehouseValidationResult}
      → IsAccepted quote kube validator api wh result
      → warehouse_checks kube quote to_upper validator api wh ≡ ok result
  unfolding warehouse_checks
  checks_complete a = rw (
    a.connected,
    (text_eq_iff _ connection_auth_pat).1 a.auth,
    a.current,
    a.resolved,
    a.configured,
    a.accepted,
  )

abbrev pub reads_ready : ConditionApi → Warehouse → Bool
reads_ready kube wh =
    current_condition_true kube wh.status.conditions wh.status.observed_generation wh.generation
      condition_ready

-- What one pass leaves in the status of a warehouse that exists and is not being deleted: either the
-- whole chain was accepted, and the warehouse reads ready with the state of the validator's answer;
-- or it was not, and the warehouse does not read ready and has no state. The spec and name stay.
pub record IsSettled (quote : Text → Text) (kube : ConditionApi) (validator : WarehouseValidator)
    (api : ClusterApi) (wh wh' : Warehouse) : Type 0 where
  pub spec : wh'.spec ≡ wh.spec
  pub name : wh'.name ≡ wh.name
  pub generation : wh'.generation ≡ wh.generation
  pub observed : wh'.status.observed_generation ≡ wh.generation
  pub verdict :
      ((result : WarehouseValidationResult) × IsAccepted quote kube validator api wh result
        × (wh'.status.state ≡ result.state)
        × (reads_ready kube wh' ≡ true))
      ⊎ ((¬ ((result : WarehouseValidationResult) × IsAccepted quote kube validator api wh result))
          × (wh'.status.state ≡ runes "")
          × (reads_ready kube wh' ≡ false))

-- A pass over a warehouse that exists and is not being deleted updates its status, and leaves it as
-- `IsSettled` says.
pub reconcile_warehouse-IsSettled :
    (quote to_upper : Text → Text) (kube : ConditionApi) (validator : WarehouseValidator)
    (api : ClusterApi) (key : Text) (wh : Warehouse)
    → api.get_warehouse key ≡ ok wh
    → wh.deletion_timestamp ≡ none
    → (wh' : Warehouse) × ((reconcile_warehouse kube quote to_upper validator api key).updated
        ≡ some wh')
      × IsSettled quote kube validator api wh wh'
unfolding reconcile_warehouse
reconcile_warehouse-IsSettled quote to_upper kube validator api key wh got live =
    elim (Result-cases (warehouse_checks kube quote to_upper validator api wh)) [
      | inl (result, passed) ↦ (
        succeed kube wh result,
        rw (got, live, passed, reconcile_warehouse),
        record {
          spec = unfold succeed in refl;
          name = unfold succeed in refl;
          generation = unfold succeed in refl;
          observed = unfold succeed in refl;
          verdict = inl (
            result,
            checks_sound quote to_upper kube validator api wh result passed,
            unfold succeed in refl,
            unfold succeed in
                current-set_condition kube wh.status.conditions condition_ready condition_true ready
                  (success_message result) wh.generation,
          );
        },
      )
      | inr (r, failed) ↦ (
        fail_after kube wh r,
        rw (got, live, failed, reconcile_warehouse),
        record {
          spec = unfold fail_after in refl;
          name = unfold fail_after in refl;
          generation = unfold fail_after in refl;
          observed = unfold fail_after in refl;
          verdict = inr (
            (λ (result, a).
                ok≢err (sym (checks_complete quote to_upper kube validator api a) ∙ failed)),
            unfold fail_after in refl,
            unfold fail_after in
                current-set_condition kube wh.status.conditions condition_ready condition_false
                  r.reason r.message wh.generation,
          );
        },
      )
    ]
