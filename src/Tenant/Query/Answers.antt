-- ===== src/Tenant/Query/Answers.antt =====
-- What a caller of `QueryTable` learns, when the authorizer is the client factory.
use provider_databricks.Prelude.{
  ℕ, Option, none, some, Text, trim_space, Result, ok, >>=-eq-ok, ok-injective, ok≢err,
  Result-cases, ◌≡◌, refl, sym, ap, ◌∙◌, inl, inr, subst,
}
use provider_databricks.Failure.{Failure}
use provider_databricks.Shared.{ConditionApi}
use provider_databricks.Query.Outcome.{
  QueryTableResult, bound_query_result, max_query_bytes, normalize_result_shape,
}
use provider_databricks.Query.Request.{QueryTableRequest}
use provider_databricks.Query.Outcome.Parts.{IsPart}
use provider_databricks.Query.Outcome.Drawn.{IsDrawn, normalized_part-IsDrawn}
use provider_databricks.Query.Outcome.Bounds.{IsWithin}
use provider_databricks.Query.Outcome.Drops.Leaves.{bound_query_result-IsWithin}
use provider_databricks.Tenant.Authorize.{
  ResourceAttributes, ReviewStatus, read_attributes, action_attributes, authorize_table,
  authorize_table_action,
}
use provider_databricks.Tenant.Authorize.Reviews.{
  IsAllowed, authorize_table-IsAllowed, authorize_table_action-IsAllowed,
}
use provider_databricks.Tenant.Query.{
  QueryInput, TableAuthorizer, ActionExecutor, action_query_name, or_return, check_authorizer,
  Prepared, identified, prepare_query, query_table_unsafe, query_table,
}
use provider_databricks.Tenant.Query.Access.{IsPrepared, prepare_query-IsPrepared}

or_return-eq-ok : (o : Option Failure) → or_return o ≡ ok tt → o ≡ none
or_return-eq-ok none h = refl
or_return-eq-ok (some e) h = cc

identified-IsDrawn :
    (request : QueryTableRequest) (result out : QueryTableResult)
    → IsPart (normalize_result_shape (identified request result)) out
    → IsDrawn result out
identified-IsDrawn request result out part =
    let drawn = normalized_part-IsDrawn (identified request result) out part in
    record { own_columns = drawn.own_columns; own_rows = drawn.own_rows }

-- The client factory as the executor's authorizer.
module _
    (authorization_for : (cluster_id token : Text)
      → Result Failure (ResourceAttributes → Result Failure ReviewStatus))
    (forbidden_message : (name reason : Text) → Text) where
  abbrev pub factory : TableAuthorizer
  factory = record {
    authorize_table = authorize_table authorization_for forbidden_message;
    authorize_table_action = authorize_table_action authorization_for forbidden_message;
  }

  abbrev pub MayQuery : (cluster_id token name : Text) → Type 0
  MayQuery cluster_id token name =
      IsAllowed authorization_for forbidden_message cluster_id token name (read_attributes name)
      × IsAllowed authorization_for forbidden_message cluster_id token name
          (action_attributes name (trim_space action_query_name))

  -- The executor asks for both accesses before it goes on.
  check_authorizer-MayQuery :
      (cluster_id token name : Text)
      → check_authorizer (some factory) cluster_id token name ≡ ok tt
      → MayQuery cluster_id token name
  check_authorizer-MayQuery cluster_id token name h =
      let read = authorize_table authorization_for forbidden_message cluster_id token name in
      let act =
        authorize_table_action authorization_for forbidden_message cluster_id token name
          action_query_name in
      let (u, reads, h1) = >>=-eq-ok (or_return read) (λ _. or_return act) h in
      (
        authorize_table-IsAllowed authorization_for forbidden_message cluster_id token name
            (or_return-eq-ok read reads),
        authorize_table_action-IsAllowed authorization_for forbidden_message cluster_id token name
            action_query_name (or_return-eq-ok act h1),
      )

  -- The answer: what the backend gave for the prepared target, under the request's name, bounded.
  pub record IsAnswer (kube : ConditionApi) (quote lower : Text → Text)
      (encoded_size : QueryTableResult → Option ℕ) (e : ActionExecutor) (name : Text)
      (input : QueryInput) (answer : QueryTableResult) : Type 0 where
    pub prepared : Prepared
    pub sound : IsPrepared kube quote lower e name input prepared
    pub allowed : MayQuery e.cluster_id e.token prepared.request.table_ref
    pub result : QueryTableResult
    pub executed : prepared.execute prepared.target ≡ ok result
    pub bounded :
        IsWithin encoded_size max_query_bytes
          (normalize_result_shape (identified prepared.request result))
          answer
    pub drawn : IsDrawn result answer
    pub same_answer : answer ≡ bound_query_result encoded_size (identified prepared.request result)

  module _ (kube : ConditionApi) (quote lower : Text → Text)
      (encoded_size : QueryTableResult → Option ℕ) (e : ActionExecutor) (name : Text)
      (input : QueryInput) (answer : QueryTableResult) where
    unsafe-IsAnswer :
        e.authorizer ≡ some factory
        → query_table_unsafe kube quote lower encoded_size e name input ≡ ok answer
        → IsAnswer kube quote lower encoded_size e name input answer
    unfolding query_table_unsafe
    unsafe-IsAnswer guarded h =
        let (p, preparing, h1) = >>=-eq-ok (prepare_query kube quote lower e name input) _ h in
        let (result, executing, h2) = >>=-eq-ok (p.execute p.target) _ h1 in
        let sound = prepare_query-IsPrepared kube quote lower e name input p preparing in
        let within =
          subst
            (IsWithin encoded_size max_query_bytes
              (normalize_result_shape (identified p.request result)))
            (ok-injective h2)
            (bound_query_result-IsWithin encoded_size (identified p.request result)) in
        record {
          prepared = p;
          sound = sound;
          allowed = check_authorizer-MayQuery e.cluster_id e.token p.request.table_ref (
              subst (λ a. check_authorizer a e.cluster_id e.token p.request.table_ref ≡ ok tt)
                guarded sound.authorized);
          result = result;
          executed = executing;
          bounded = within;
          drawn = identified-IsDrawn p.request result answer within.part;
          same_answer = sym (ok-injective h2);
        }

    -- An answer of `QueryTable`, with the factory as its authorizer, comes of a normalized request
    -- for which the API server allowed the caller to get the table and to create the action on it,
    -- of a chain of resources that are ready and current, and of one result that the backend gave for
    -- exactly that chain; it is that result under the request's name and under the bounds: its columns
    -- and rows are the first ones of the normalized result, all of them unless it is marked truncated,
    -- with no column and no value that the backend did not give, but null for a missing one.
    pub query_table-IsAnswer :
        e.authorizer ≡ some factory
        → query_table kube quote lower encoded_size e name input ≡ ok answer
        → IsAnswer kube quote lower encoded_size e name input answer
    unfolding query_table
    query_table-IsAnswer guarded h =
        elim (Result-cases (query_table_unsafe kube quote lower encoded_size e name input)) [
          | inl (r, ran) ↦
              unsafe-IsAnswer guarded (ran ∙ ap ok (ok-injective (rw (ran, query_table) at h)))
          | inr (x, failed) ↦ absurd (ok≢err (sym (rw (failed, query_table) at h)))
        ]
