-- ===== src/Tenant/Query/Access.antt =====
-- What stands behind a query that reaches the backend, and behind its answer.
use provider_databricks.Prelude.{
  Bool, true, false, not, ◌&&◌, ◌||◌, Option, none, some, Text, is_empty, text_eq_iff, trim_space,
  ok, ◌≡◌, refl, ap, arith, >>=-eq-ok, reject_if-eq-ok, ok-injective, true_of_not, subst,
}
use provider_databricks.Failure.{Failure}
use provider_databricks.Failure.Queries.{or_query_failure, or_query_failure-eq-ok}
use provider_databricks.Api.{condition_ready, connection_auth_pat, Connection, Warehouse, Table}
use provider_databricks.Shared.{
  ConditionApi, ClusterApi, current_condition_true, resolve_table, resolve_warehouse,
  resolve_connection, resolve_bearer_token,
}
use provider_databricks.Query.Request.{normalize_query_request}
use provider_databricks.Controller.Warehouses.{connection_current}
use provider_databricks.Controller.Tables.{warehouse_current}
use provider_databricks.Tenant.Query.{
  QueryInput, ActionExecutor, check_authorizer, required, no_executor, Prepared, execution_target,
  asked, resolve_chain, prepare_query,
}

-- The chain behind a table: each resource was read with the provider's authority, the table and its
-- warehouse name one connection, and every condition holds for the current generation.
pub record IsChain (kube : ConditionApi) (quote : Text → Text) (api : ClusterApi) (table_ref : Text)
    (tbl : Table) (wh : Warehouse) (conn : Connection) (token : Text) : Type 0 where
  pub table : resolve_table quote api table_ref ≡ ok tbl
  pub warehouse : resolve_warehouse quote api tbl.spec.warehouse_ref ≡ ok wh
  pub named : is_empty (trim_space tbl.spec.connection_ref) ≡ false
  pub same_connection : tbl.spec.connection_ref ≡ wh.spec.connection_ref
  pub table_ready :
      current_condition_true kube tbl.status.conditions tbl.status.observed_generation
        tbl.generation condition_ready
      ≡ true
  pub warehouse_ready : warehouse_current kube wh ≡ true
  pub connection : resolve_connection quote api tbl.spec.connection_ref ≡ ok conn
  pub connection_ready : connection_current kube conn ≡ true
  pub auth : conn.spec.auth_type ≡ connection_auth_pat
  pub credential : resolve_bearer_token quote api conn ≡ ok token

or_false : (a b : Bool) → (a || not b) ≡ false → (a ≡ false) × (b ≡ true)
or_false a b h = ground arith

module _ (kube : ConditionApi) (quote lower : Text → Text) where
  pub resolve_chain_sound :
      (api : ClusterApi) (table_ref : Text) (tbl : Table) (wh : Warehouse) (conn : Connection)
      (token : Text)
      → resolve_chain kube quote lower api table_ref ≡ ok (tbl, wh, conn, token)
      → IsChain kube quote api table_ref tbl wh conn token
  unfolding resolve_chain
  resolve_chain_sound api table_ref tbl wh conn token h =
      let (t, getting, h1) = >>=-eq-ok _ _ h in
      let (w, housing, h2) = >>=-eq-ok _ _ h1 in
      let (matching, h3) = reject_if-eq-ok _ _ _ h2 in
      let (t_ready, h4) = reject_if-eq-ok _ _ _ h3 in
      let (w_ready, h5) = reject_if-eq-ok _ _ _ h4 in
      let (c, connecting, h6) = >>=-eq-ok _ _ h5 in
      let (c_ready, h7) = reject_if-eq-ok _ _ _ h6 in
      let (pat, h8) = reject_if-eq-ok _ _ _ h7 in
      let (k, reading, h9) = >>=-eq-ok _ _ h8 in
      let (named, same) = or_false _ _ matching in
      subst (λ r. IsChain kube quote api table_ref r.0 r.1 r.2 r.3) (ok-injective h9)
        (record {
          table = getting;
          warehouse = housing;
          named = named;
          same_connection = (text_eq_iff t.spec.connection_ref w.spec.connection_ref).0 same;
          table_ready = true_of_not t_ready;
          warehouse_ready = true_of_not w_ready;
          connection = connecting;
          connection_ready = true_of_not c_ready;
          auth = (text_eq_iff c.spec.auth_type connection_auth_pat).0 (true_of_not pat);
          credential = reading;
        })

  -- What the backend is asked comes from an authorized request and a chain that is ready.
  pub record IsPrepared (e : ActionExecutor) (name : Text) (input : QueryInput) (p : Prepared)
      : Type 0 where
    pub request : normalize_query_request (asked kube quote lower name input) ≡ ok p.request
    pub authorized : check_authorizer e.authorizer e.cluster_id e.token p.request.table_ref ≡ ok tt
    pub api : ClusterApi
    pub authority : e.authority_client e.cluster_id ≡ ok api
    pub tbl : Table
    pub wh : Warehouse
    pub conn : Connection
    pub token : Text
    pub chain : IsChain kube quote api p.request.table_ref tbl wh conn token
    pub executor : e.executor ≡ some p.execute
    pub target : p.target ≡ execution_target tbl wh conn token p.request

  required-eq-ok :
      {A : Type 0} (o : Option A) (e : Failure) {a : A} → required o e ≡ ok a → o ≡ some a
  required-eq-ok none e h = cc
  required-eq-ok (some a) e h = ap some (ok-injective h)

  pub prepare_query-IsPrepared :
      (e : ActionExecutor) (name : Text) (input : QueryInput) (p : Prepared)
      → prepare_query kube quote lower e name input ≡ ok p
      → IsPrepared e name input p
  unfolding prepare_query
  prepare_query-IsPrepared e name input p h =
      let (_, h1) = reject_if-eq-ok (not e.has_factory) _ _ h in
      let (_, h2) = reject_if-eq-ok (is_empty (trim_space e.cluster_id)) _ _ h1 in
      let (_, h3) = reject_if-eq-ok (is_empty (trim_space e.token)) _ _ h2 in
      let (_, h4) = reject_if-eq-ok (is_empty (trim_space name)) _ _ h3 in
      let (request, normal, h5) =
        >>=-eq-ok
          (or_query_failure quote (normalize_query_request (asked kube quote lower name input))) _
          h4 in
      let (u, passed, h6) =
        >>=-eq-ok (check_authorizer e.authorizer e.cluster_id e.token request.table_ref) _ h5 in
      let (api, authority, h7) = >>=-eq-ok (e.authority_client e.cluster_id) _ h6 in
      let (chain, resolved, h8) =
        >>=-eq-ok (resolve_chain kube quote lower api request.table_ref) _ h7 in
      let (execute, present, h9) = >>=-eq-ok (required e.executor no_executor) _ h8 in
      let (_, h10) =
        reject_if-eq-ok (not (is_empty request.columns) && is_empty chain.0.status.columns) _ _
          h9 in
      subst (IsPrepared e name input) (ok-injective h10) (record {
        request =
            or_query_failure-eq-ok quote
              (normalize_query_request (asked kube quote lower name input)) normal;
        authorized = passed;
        api = api;
        authority = authority;
        tbl = chain.0;
        wh = chain.1;
        conn = chain.2;
        token = chain.3;
        chain = resolve_chain_sound api request.table_ref chain.0 chain.1 chain.2 chain.3 resolved;
        executor = required-eq-ok e.executor no_executor present;
        target = refl;
      })
