-- ===== src/Actions/Handler/Answers.antt =====
-- What a success of the action endpoint of actions/actions.go means.
use provider_databricks.Prelude.{
  ℕ, ◌*◌, ◌^◌, ◌≤◌, true, false, not, true_of_not, ◌≡◌, ◌∙◌, refl, sym, ap, subst, inl, inr, ◌⊎◌,
  List, Option, none, some, Text, runes, text_eq, text_eq_iff, Result, ok, err, ok≢err,
  ok-injective, Result-cases, ◌>>=◌, reject_if-eq-ok,
}
use provider_databricks.Failure.Queries.{or_query_failure, or_query_failure-eq-ok}
use provider_databricks.Failure.{Failure}
use provider_databricks.Query.Request.{validate_table_ref}
use provider_databricks.Query.Request.{action_version_v1}
use provider_databricks.Query.Outcome.{QueryTableResult, normalize_result_shape, max_query_bytes}
use provider_databricks.Query.Outcome.Parts.{IsPart}
use provider_databricks.Query.Outcome.Drawn.{IsDrawn, normalized_part-IsDrawn}
use provider_databricks.Query.Outcome.Bounds.{IsWithin}
use provider_databricks.Query.Outcome.Drops.Leaves.{bound_query_result-IsWithin}
use provider_databricks.Tenant.Query.{QueryInput}
use provider_databricks.Actions.Paths.{Route, parse_action_path}
use provider_databricks.Actions.Requests.{
  HttpCall, InputJson, normalize_request_id, has_bearer, action_deadline, decode_request,
  max_action_deadline_ms,
}
use provider_databricks.Actions.Requests.Deadlines.{action_deadline_bounds}
use provider_databricks.Actions.Handler.{
  Envelope, Response, QueryExecutor, bound_result_envelope, answered, owned_result, wrong_route,
  or_write, or_respond, handle_checked, handle, table_resource,
}
use provider_databricks.Actions.Handler.Fitting.{FitsInto, bound_result_envelope-FitsInto}
use provider_databricks.Actions.Handler.Refusals.{refused, handle_checked-Refuses}

module _ {B : Type 0} where
  or_write-eq-ok :
      {A : Type 0} (write : Failure → Response) (r : Result Failure A) (k : A → Result Response B)
      {b : B}
      → (or_write write r >>= k) ≡ ok b
      → (a : A) × (r ≡ ok a) × (k a ≡ ok b)
  or_write-eq-ok write (ok a) k h = (a, refl, h)
  or_write-eq-ok write (err e) k h = absurd (ok≢err (sym h))

  or_respond-eq-ok :
      {A : Type 0} (response : Response) (o : Option A) (k : A → Result Response B) {b : B}
      → (or_respond response o >>= k) ≡ ok b
      → (a : A) × (o ≡ some a) × (k a ≡ ok b)
  or_respond-eq-ok response (some a) k h = (a, refl, h)
  or_respond-eq-ok response none k h = absurd (ok≢err (sym h))

-- The result under the identity of the route.
abbrev pub own_result : Route → QueryTableResult → QueryTableResult
own_result route result = record result {
  action_version = action_version_v1;
  table_ref = route.name;
}

own_result-IsDrawn :
    (route : Route) (result out : QueryTableResult)
    → IsPart (normalize_result_shape (own_result route result)) out
    → IsDrawn result out
own_result-IsDrawn route result out part =
    let drawn = normalized_part-IsDrawn (own_result route result) out part in
    record { own_columns = drawn.own_columns; own_rows = drawn.own_rows }

module _ (lower quote : Text → Text) (json : InputJson) (encoded_size : QueryTableResult → Option ℕ)
    (envelope_size : Envelope → Option ℕ) (random : Option (List ℕ))
    (find_executor : HttpCall → Route → Option QueryExecutor) where
  -- A success: the request is a POST with a bearer credential to the route of query_table/v1 on a table
  -- with a valid name, its input is decoded, and the executor of the route ran that input on that table
  -- within the deadline; the body has the identity of the route, and the result of the run under the
  -- bounds or a part of it that is marked, and fits.
  pub record IsAnswer (call : HttpCall) (response : Response) : Type 0 where
    pub route : Route
    pub input : QueryInput
    pub execute : QueryExecutor
    pub deadline : ℕ
    pub result : QueryTableResult
    pub method : call.method ≡ runes "POST"
    pub credential : has_bearer lower call.authorization ≡ true
    pub routed : parse_action_path call.path ≡ ok route
    pub right_route : wrong_route route ≡ false
    pub valid_name : validate_table_ref route.name ≡ ok tt
    pub decoded : decode_request json quote call.body ≡ ok input
    pub found : find_executor call route ≡ some execute
    pub in_time : deadline ≤ max_action_deadline_ms * 10 ^ 6
    pub ran : execute deadline (table_resource route.name) input ≡ ok result
    pub drawn : IsDrawn result (owned_result encoded_size route result)
    pub within :
        IsWithin encoded_size max_query_bytes
          (normalize_result_shape (own_result route result))
          (owned_result encoded_size route result)
    pub body :
        FitsInto encoded_size envelope_size
          (answered response.request_id route (owned_result encoded_size route result))
          (owned_result encoded_size route result)
          response.body

  handle_checked-IsAnswer :
      (call : HttpCall) (request_id : Text) (response : Response)
      → handle_checked lower quote json encoded_size envelope_size random find_executor call
          request_id
        ≡ ok response
      → IsAnswer call response
  unfolding handle_checked
  handle_checked-IsAnswer call request_id response h =
      let (post, h1) = reject_if-eq-ok (not (text_eq call.method (runes "POST"))) _ _ h in
      let (bearer, h2) = reject_if-eq-ok (not (has_bearer lower call.authorization)) _ _ h1 in
      let (route, routed, h3) = or_write-eq-ok _ (parse_action_path call.path) _ h2 in
      let (right, h4) = reject_if-eq-ok (wrong_route route) _ _ h3 in
      let (valid, named, h5) =
        or_write-eq-ok _ (or_query_failure quote (validate_table_ref route.name)) _ h4 in
      let (input, decoded, h6) = or_write-eq-ok _ (decode_request json quote call.body) _ h5 in
      let (execute, found, h7) = or_respond-eq-ok _ (find_executor call route) _ h6 in
      let (deadline, timed, h8) = or_write-eq-ok _ (action_deadline call.deadline) _ h7 in
      let (result, ran, h9) =
        or_write-eq-ok _ (execute deadline (table_resource route.name) input) _ h8 in
      let shown = owned_result encoded_size route result in
      let within = bound_query_result-IsWithin encoded_size (own_result route result) in
      let (body, fitted_body, h10) =
        or_respond-eq-ok _
          (bound_result_envelope encoded_size envelope_size (answered request_id route shown) shown)
          _ h9 in
      subst (IsAnswer call) (ok-injective h10) (record {
        route = route;
        input = input;
        execute = execute;
        deadline = deadline;
        result = result;
        method = (text_eq_iff call.method (runes "POST")).0 (true_of_not post);
        credential = true_of_not bearer;
        routed = routed;
        right_route = right;
        valid_name = or_query_failure-eq-ok quote (validate_table_ref route.name) named;
        decoded = decoded;
        found = found;
        in_time = (action_deadline_bounds call.deadline deadline timed).1;
        ran = ran;
        drawn = own_result-IsDrawn route result _ within.part;
        within = within;
        body =
            bound_result_envelope-FitsInto encoded_size envelope_size
              (answered request_id route shown) body shown within.shape fitted_body;
      })

  abbrev checked : HttpCall → Text → Result Response Response
  checked = handle_checked lower quote json encoded_size envelope_size random find_executor

  handled :
      (call : HttpCall) (r : Result Response Response)
      → checked call (normalize_request_id random call.request_id) ≡ r
      → (response : Response) → (r ≡ ok response) ⊎ (r ≡ err response)
      → handle lower quote json encoded_size envelope_size random find_executor call ≡ response
  unfolding handle
  handled call r same response (inl passed) = rw (same ∙ passed, handle) refl
  handled call r same response (inr stopped) = rw (same ∙ stopped, handle) refl

  -- A response with status 200 answers a POST with a bearer credential to query_table/v1 on a table
  -- with a valid name: its input is decoded, the executor of the route ran that input on that table with
  -- a deadline of at most 45 seconds, and the body has the identity of the route with the first columns
  -- and the first rows of the bounded result of the run, marked as truncated unless they are all, and is
  -- smaller than the limit. The bounded result has no column and no value that the run did not give,
  -- but null for a missing one.
  pub handle-IsAnswer :
      (call : HttpCall)
      → (handle lower quote json encoded_size envelope_size random find_executor call).status ≡ 200
      → IsAnswer call (handle lower quote json encoded_size envelope_size random find_executor call)
  unfolding handle
  handle-IsAnswer call success =
      let id = normalize_request_id random call.request_id in
      elim (Result-cases (checked call id)) [
        | inl (response, passed) ↦
            subst (IsAnswer call) (sym (handled call (checked call id) refl response (inl passed)))
              (handle_checked-IsAnswer call id response passed)
        | inr (response, stopped) ↦ absurd (
            refused (checked call id) response
              (handle_checked-Refuses lower quote json encoded_size envelope_size random
                find_executor call id)
              stopped
              (sym (
                  ap (λ (r : Response). r.status)
                    (handled call (checked call id) refl response (inr stopped)))
                ∙ success))
      ]
