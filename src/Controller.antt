-- ===== src/Controller.antt =====
-- controller/: the three reconcilers. One pass reads the API and ends with at most one status update
-- and a result. This module has what the three have in common.
pub mod Connections
pub mod Warehouses
pub mod Tables
use provider_databricks.Prelude.{
  ℕ, Option, none, some, Text, Result, ok, err, ◌++◌, runes, ◌≡◌, refl, ap, ok-injective,
}
use provider_databricks.Failure.{
  Failure, Reason, validator_unavailable, classify_validation_error, safe_status_message,
}

-- What one pass did: the object whose status it sent to the API, and the `ctrl.Result`, in seconds
-- until the next pass (0: none asked for), or the error returned.
pub record Reconciled (A : Type 0) : Type 0 where
  pub updated : Option A
  pub outcome : Result Failure ℕ

-- The arguments of `failAfter`. Each early `return r.failAfter(…)` of a reconciler is an `err` of the
-- block of its checks.
pub record Rejection : Type 0 where
  pub reason : Reason
  pub message : Text
  pub requeue_after : ℕ

module _ {A : Type 0} where
  abbrev pub left_alone : Result Failure ℕ → Reconciled A
  left_alone outcome = record { updated = none; outcome = outcome }

  -- `c.Status().Update(ctx, obj)` and the return behind it.
  abbrev pub update_status : (A → Option Failure) → A → ℕ → Reconciled A
  update_status update obj requeue_after = record {
    updated = some obj;
    outcome = elim (update obj) [ none ↦ ok requeue_after | some e ↦ err e ];
  }

  -- `if err != nil { return r.failAfter(ctx, c, obj, reason, err.Error(), after) }`
  abbrev pub or_reject : Reason → ℕ → Result Failure A → Result Rejection A
  or_reject reason after (ok a) = ok a
  or_reject reason after (err e) =
      err (record { reason = reason; message = e.message; requeue_after = after })

  pub or_reject-eq-ok :
      (reason : Reason) (after : ℕ) (r : Result Failure A) {a : A}
      → or_reject reason after r ≡ ok a
      → r ≡ ok a
  or_reject-eq-ok reason after (ok a) h = cc
  or_reject-eq-ok reason after (err e) h = cc

-- A validator of the backend package, `none` for the nil interface; the arguments behind it are the
-- reconciler's `validationRequeueAfter` and its message for a nil validator.
module _ (quote to_upper : Text → Text) where
  unfoldable pub validation_rejection : (Reason → ℕ) → Failure → Rejection
  unfolding classify_validation_error safe_status_message
  validation_rejection requeue_after e =
      let reason = classify_validation_error (some e) in
      record {
        reason = reason;
        message = safe_status_message quote to_upper e;
        requeue_after = requeue_after reason;
      }

  module _ {R : Type 0} where
    abbrev answered : (Reason → ℕ) → Result Failure R → Result Rejection R
    answered requeue_after (ok result) = ok result
    answered requeue_after (err e) = err (validation_rejection requeue_after e)

    answered-eq-ok :
        (requeue_after : Reason → ℕ) (answer : Result Failure R) {result : R}
        → answered requeue_after answer ≡ ok result
        → answer ≡ ok result
    answered-eq-ok requeue_after (ok r) h = ap ok (ok-injective h)
    answered-eq-ok requeue_after (err e) h = cc

  module _ {T R : Type 0} where
    abbrev pub ask_validator :
        (Reason → ℕ) → Text → Option (T → Result Failure R) → T → Result Rejection R
    ask_validator requeue_after unconfigured none target =
        err (record { reason = validator_unavailable; message = unconfigured; requeue_after = 0 })
    ask_validator requeue_after unconfigured (some validate) target =
        answered requeue_after (validate target)

    pub ask_validator-eq-ok :
        (requeue_after : Reason → ℕ) (unconfigured : Text)
        (validator : Option (T → Result Failure R)) (target : T) {result : R}
        → ask_validator requeue_after unconfigured validator target ≡ ok result
        → (v : T → Result Failure R) × (validator ≡ some v) × (v target ≡ ok result)
    ask_validator-eq-ok requeue_after unconfigured none target h = cc
    ask_validator-eq-ok requeue_after unconfigured (some v) target h =
        (v, refl, answered-eq-ok requeue_after (v target) h)

-- The message for a connection whose authType is not PAT.
abbrev pub auth_type_message : (quote : Text → Text) → Text → Text
auth_type_message quote auth_type =
    runes "connection authType "
    ++ (quote auth_type
        ++ runes " is declared, but this provider currently validates PAT credentials only")
