-- ===== src/Actions/Handler/Refusals.antt =====
-- The early returns of the action endpoint of actions/actions.go.
use provider_databricks.Prelude.{
  ℕ, ◌<◌, Bool, Bool-cases, true, false, false≢true, not, ◌||◌, ◌≡◌, ◌≢◌, ◌∙◌, sym, ap, subst, inl,
  inr, List, Option, none, some, arith, Text, runes, text_eq, Result, ok, err, ok≢err, ◌>>=◌, ◌>>◌,
  reject_if,
}
use provider_databricks.Failure.Queries.{or_query_failure}
use provider_databricks.Failure.{Failure, has_kind, as_canceled, as_deadline}
use provider_databricks.Query.Request.{validate_table_ref}
use provider_databricks.Query.Outcome.{QueryTableResult}
use provider_databricks.Tenant.Sanitize.{ActionError}
use provider_databricks.Actions.{action_error_status_allowed, write_failure, normalize_action_error}
use provider_databricks.Actions.Leaving.{write_failure-IsLeaving}
use provider_databricks.Actions.Paths.{Route, parse_action_path}
use provider_databricks.Actions.Requests.{
  HttpCall, InputJson, has_bearer, action_deadline, decode_request,
}
use provider_databricks.Actions.Handler.{
  Envelope, Response, QueryExecutor, write_envelope_error, failure_response, executor_failure,
  bound_result_envelope, answered, owned_result, wrong_route, or_write, or_respond, handle_checked,
  table_resource, response_limit,
}

-- An early return is no success.
pub data Refuses {A : Type 0} (r : Result Response A) : Type 0 where
  refuses : ((e : Response) → r ≡ err e → e.status ≢ 200) → Refuses r

err-injective : {A : Type 0} {d e : Response} → ◌≡◌ {A = Result Response A} (err d) (err e) → d ≡ e
err-injective h = cc

refuse_ok : {A : Type 0} (a : A) → Refuses (ok a)
refuse_ok a = refuses (λ e same. absurd (ok≢err same))

refuse_err : {A : Type 0} (e : Response) → e.status ≢ 200 → Refuses {A = A} (err e)
refuse_err e h = refuses (λ d same. subst (λ (r : Response). r.status ≢ 200) (err-injective same) h)

pub refused :
    {A : Type 0} (r : Result Response A) (e : Response) → Refuses r → r ≡ err e → e.status ≢ 200
refused r e (refuses h) stopped = h e stopped

module _ {B : Type 0} where
  refuse_guard :
      (bad : Bool) (response : Response) {k : Result Response B}
      → response.status ≢ 200
      → Refuses k
      → Refuses (reject_if bad response >> k)
  refuse_guard true response h hk = refuse_err response h
  refuse_guard false response h hk = hk

  refuse_write :
      {A : Type 0} (write : Failure → Response) (r : Result Failure A) (k : A → Result Response B)
      → ((e : Failure) → (write e).status ≢ 200)
      → ((a : A) → Refuses (k a))
      → Refuses (or_write write r >>= k)
  refuse_write write (ok a) k h hk = hk a
  refuse_write write (err e) k h hk = refuse_err (write e) (h e)

  refuse_respond :
      {A : Type 0} (response : Response) (o : Option A) (k : A → Result Response B)
      → response.status ≢ 200
      → ((a : A) → Refuses (k a))
      → Refuses (or_respond response o >>= k)
  refuse_respond response (some a) k h hk = hk a
  refuse_respond response none k h hk = refuse_err response h

literal : (status : ℕ) → 200 < status → status ≢ 200
literal status h same = absurd (omega (arith, same))

failing-not_200 :
    (code : Text) (status : ℕ) → action_error_status_allowed code status ≡ true → status ≢ 200
unfolding action_error_status_allowed
failing-not_200 code status allowed same =
    false≢true (ap (action_error_status_allowed code) (sym same) ∙ allowed)

module _ (lower quote : Text → Text) (json : InputJson) (encoded_size : QueryTableResult → Option ℕ)
    (envelope_size : Envelope → Option ℕ) (random : Option (List ℕ))
    (find_executor : HttpCall → Route → Option QueryExecutor) where
  failure_response-status :
      (request_id : Text) (route : Option Route) (failure : ActionError)
      → (failure_response lower request_id route failure).status ≢ 200
  unfolding failure_response
  failure_response-status request_id route failure =
      failing-not_200 (write_failure lower failure).code _
        (write_failure-IsLeaving lower failure).allowed

  executor_failure-status :
      (request_id : Text) (route : Route) (e : Failure)
      → (executor_failure lower request_id route e).status ≢ 200
  unfolding executor_failure write_envelope_error
  executor_failure-status request_id route e =
      elim (Bool-cases (has_kind as_canceled e.chain || has_kind as_deadline e.chain)) [
        | inl late ↦ rw (late, executor_failure) (literal 504 (omega arith))
        | inr other ↦
            rw (other, executor_failure)
              (failure_response-status request_id (some route) (normalize_action_error lower e))
      ]

  pub handle_checked-Refuses :
      (call : HttpCall) (request_id : Text)
      → Refuses (
          handle_checked lower quote json encoded_size envelope_size random find_executor call
            request_id)
  unfolding handle_checked write_envelope_error
  handle_checked-Refuses call request_id =
      refuse_guard (not (text_eq call.method (runes "POST"))) _ (literal 405 (omega arith)) (
        refuse_guard (not (has_bearer lower call.authorization)) _ (literal 401 (omega arith)) (
          refuse_write _ (parse_action_path call.path) _ (λ e. literal 404 (omega arith))
            (λ route. refuse_guard (wrong_route route) _ (literal 404 (omega arith)) (
              refuse_write _ (or_query_failure quote (validate_table_ref route.name)) _
                (λ e. literal 400 (omega arith))
                (λ _.
                  refuse_write _ (decode_request json quote call.body) _
                    (λ e. literal 400 (omega arith))
                    (λ input.
                      refuse_respond _ (find_executor call route) _ (literal 503 (omega arith))
                        (λ execute.
                          refuse_write _ (action_deadline call.deadline) _
                            (λ e. literal 400 (omega arith))
                            (λ deadline.
                              refuse_write _ (execute deadline (table_resource route.name) input) _
                                (executor_failure-status request_id route)
                                (λ result.
                                  refuse_respond _
                                    (bound_result_envelope encoded_size envelope_size
                                      (answered request_id route
                                        (owned_result encoded_size route result))
                                      (owned_result encoded_size route result))
                                    _
                                    (failure_response-status request_id (some route) response_limit)
                                    (λ body. refuse_ok _))))))))))
