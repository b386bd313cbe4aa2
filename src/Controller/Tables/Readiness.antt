-- ===== src/Controller/Tables/Readiness.antt =====
-- When a reconciled table reads as ready.
use provider_databricks.Prelude.{
  ℕ, Bool, true, false, List, [], none, some, Text, text_eq_iff, Result, ok, ◌≡◌, refl, sym, ◌∙◌,
  ◌⊎◌, inl, inr, >>=-eq-ok, reject_if-eq-ok, Result-cases, ok≢err, true_of_not, ◌==◌, if◌then◌else◌,
}
use provider_databricks.Failure.{Failure}
use provider_databricks.Api.{
  condition_true, condition_false, condition_ready, connection_auth_pat, Connection, Warehouse,
  Column, Table,
}
use provider_databricks.Shared.{
  ConditionApi, ClusterApi, current_condition_true, resolve_connection, resolve_warehouse,
  resolve_bearer_token,
}
use provider_databricks.Shared.Laws.{current-set_condition}
use provider_databricks.Controller.{or_reject-eq-ok, ask_validator-eq-ok}
use provider_databricks.Controller.Warehouses.{connection_current}
use provider_databricks.Controller.Tables.{
  TableValidator, target_of, validation_requeue_after, warehouse_current, bounded_schema,
  success_reason, success_message, table_checks, fail_after, succeed, reconcile_table,
}
use provider_databricks.Query.Targets.{TableTarget}

-- The warehouse and the connection are current and belong together, the credential was read, and the
-- validator found the columns.
pub record IsAccepted (quote : Text → Text) (kube : ConditionApi) (validator : TableValidator)
    (api : ClusterApi) (tbl : Table) (found : List Column) : Type 0 where
  pub wh : Warehouse
  pub warehouse : resolve_warehouse quote api tbl.spec.warehouse_ref ≡ ok wh
  pub same_connection : wh.spec.connection_ref ≡ tbl.spec.connection_ref
  pub warehouse_ready : warehouse_current kube wh ≡ true
  pub conn : Connection
  pub connection : resolve_connection quote api tbl.spec.connection_ref ≡ ok conn
  pub connection_ready : connection_current kube conn ≡ true
  pub auth : conn.spec.auth_type ≡ connection_auth_pat
  pub token : Text
  pub resolved : resolve_bearer_token quote api conn ≡ ok token
  pub validate_table : TableTarget → Result Failure (List Column)
  pub configured : validator ≡ some validate_table
  pub accepted : validate_table (target_of tbl wh conn token) ≡ ok found

module _ (quote to_upper : Text → Text) (kube : ConditionApi) (validator : TableValidator)
    (api : ClusterApi) where
  checks_sound :
      (tbl : Table) (found : List Column)
      → table_checks kube quote to_upper validator api tbl ≡ ok found
      → IsAccepted quote kube validator api tbl found
  unfolding table_checks
  checks_sound tbl found h =
      let (wh, getting, h1) = >>=-eq-ok _ _ h in
      let (same, h2) = reject_if-eq-ok _ _ _ h1 in
      let (wh_ready, h3) = reject_if-eq-ok _ _ _ h2 in
      let (conn, connecting, h4) = >>=-eq-ok _ _ h3 in
      let (conn_ready, h5) = reject_if-eq-ok _ _ _ h4 in
      let (pat, h6) = reject_if-eq-ok _ _ _ h5 in
      let (token, reading, h7) = >>=-eq-ok _ _ h6 in
      let (v, configured, accepted) =
        ask_validator-eq-ok quote to_upper validation_requeue_after _ validator
          (target_of tbl wh conn token) h7 in
      record {
        wh = wh;
        warehouse = or_reject-eq-ok _ _ _ getting;
        same_connection =
            (text_eq_iff wh.spec.connection_ref tbl.spec.connection_ref).0 (true_of_not same);
        warehouse_ready = true_of_not wh_ready;
        conn = conn;
        connection = or_reject-eq-ok _ _ _ connecting;
        connection_ready = true_of_not conn_ready;
        auth = (text_eq_iff conn.spec.auth_type connection_auth_pat).0 (true_of_not pat);
        token = token;
        resolved = or_reject-eq-ok _ _ _ reading;
        validate_table = v;
        configured = configured;
        accepted = accepted;
      }

  checks_complete :
      {tbl : Table} {found : List Column}
      → IsAccepted quote kube validator api tbl found
      → table_checks kube quote to_upper validator api tbl ≡ ok found
  unfolding table_checks
  checks_complete a = rw (
    a.warehouse,
    (text_eq_iff _ _).1 a.same_connection,
    a.warehouse_ready,
    a.connection,
    a.connection_ready,
    (text_eq_iff _ connection_auth_pat).1 a.auth,
    a.resolved,
    a.configured,
    a.accepted,
  )

abbrev pub reads_ready : ConditionApi → Table → Bool
reads_ready kube tbl =
    current_condition_true kube tbl.status.conditions tbl.status.observed_generation tbl.generation
      condition_ready

-- What one pass leaves in the status of a table that exists and is not being deleted: either the
-- whole chain was accepted, and the table reads ready with the bounded schema that the validator
-- found, refreshed now; or it was not, and the table does not read ready, and keeps its cached schema
-- if that was observed for this generation, and has none otherwise. The spec and the name stay.
pub record IsSettled (quote : Text → Text) (kube : ConditionApi) (now : ℕ)
    (validator : TableValidator) (api : ClusterApi) (tbl tbl' : Table) : Type 0 where
  pub spec : tbl'.spec ≡ tbl.spec
  pub name : tbl'.name ≡ tbl.name
  pub generation : tbl'.generation ≡ tbl.generation
  pub observed : tbl'.status.observed_generation ≡ tbl.generation
  pub verdict :
      ((found : List Column) × IsAccepted quote kube validator api tbl found
        × (tbl'.status.columns ≡ (bounded_schema found).columns)
        × (tbl'.status.refreshed_at ≡ some now)
        × (reads_ready kube tbl' ≡ true))
      ⊎ ((¬ ((found : List Column) × IsAccepted quote kube validator api tbl found))
          × (tbl'.status.columns ≡ (
              if tbl.status.observed_generation == tbl.generation then tbl.status.columns else []))
          × (tbl'.status.refreshed_at ≡ (
              if tbl.status.observed_generation == tbl.generation
              then tbl.status.refreshed_at
              else none))
          × (reads_ready kube tbl' ≡ false))

pub reconcile_table-IsSettled :
    (quote to_upper : Text → Text) (kube : ConditionApi) (now : ℕ) (validator : TableValidator)
    (api : ClusterApi) (key : Text) (tbl : Table)
    → api.get_table key ≡ ok tbl
    → tbl.deletion_timestamp ≡ none
    → (tbl' : Table) × ((reconcile_table kube quote to_upper now validator api key).updated
        ≡ some tbl')
      × IsSettled quote kube now validator api tbl tbl'
unfolding reconcile_table
reconcile_table-IsSettled quote to_upper kube now validator api key tbl got live =
    elim (Result-cases (table_checks kube quote to_upper validator api tbl)) [
      | inl (found, passed) ↦ (
        succeed kube now tbl found,
        rw (got, live, passed, reconcile_table),
        record {
          spec = unfold succeed in refl;
          name = unfold succeed in refl;
          generation = unfold succeed in refl;
          observed = unfold succeed in refl;
          verdict = inl (
            found,
            checks_sound quote to_upper kube validator api tbl found passed,
            unfold succeed in refl,
            unfold succeed in refl,
            unfold succeed in
                current-set_condition kube tbl.status.conditions condition_ready condition_true
                  (success_reason (bounded_schema found)) (success_message (bounded_schema found))
                  tbl.generation,
          );
        },
      )
      | inr (r, failed) ↦ (
        fail_after kube tbl r,
        rw (got, live, failed, reconcile_table),
        record {
          spec = unfold fail_after in refl;
          name = unfold fail_after in refl;
          generation = unfold fail_after in refl;
          observed = unfold fail_after in refl;
          verdict = inr (
            (λ (found, a).
                ok≢err (sym (checks_complete quote to_upper kube validator api a) ∙ failed)),
            unfold fail_after in refl,
            unfold fail_after in refl,
            unfold fail_after in
                current-set_condition kube tbl.status.conditions condition_ready condition_false
                  r.reason r.message tbl.generation,
          );
        },
      )
    ]
