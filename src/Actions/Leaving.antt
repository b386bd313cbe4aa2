-- ===== src/Actions/Leaving.antt =====
-- What may leave the action endpoint with an error.
use provider_databricks.Prelude.{
  ℕ, ◌==◌, ◌≤◌, if◌then◌else◌, Bool, true, false, not, ◌&&◌, any, Text, byte_length, text_eq,
  text_eq_iff, trim_space, has_substring, ◌≡◌, refl, sym, ◌⊎◌, inl, inr, arith, Bool-cases, subst,
}
use provider_databricks.Tenant.Sanitize.{ActionError, code_action_failed, code_backend_failure}
use provider_databricks.Actions.{
  is_known_action_error_code, gateway_code, gateway_failure_status, action_error_status_allowed,
  default_action_failure_message, max_action_error_message_bytes, secret_markers, sql_markers,
  is_unsafe_rune, WireFailure, is_unsafe_message, safe_action_error_message, settle, leaving_code,
  known_or_failed, write_failure, default_action_error_status,
}

backend_failure-allowed :
    (retryable : Bool)
    → action_error_status_allowed code_backend_failure (gateway_failure_status retryable) ≡ true
unfolding action_error_status_allowed gateway_failure_status
backend_failure-allowed true = refl
backend_failure-allowed false = refl

action_failed-allowed :
    (retryable : Bool)
    → action_error_status_allowed code_action_failed (gateway_failure_status retryable) ≡ true
unfolding action_error_status_allowed gateway_failure_status
action_failed-allowed true = refl
action_failed-allowed false = refl

-- Both statuses of the gateway are allowed for both of its codes.
gateway-allowed :
    (code : Text) (retryable : Bool)
    → gateway_code code ≡ true
    → action_error_status_allowed code (gateway_failure_status retryable) ≡ true
gateway-allowed code retryable h = elim (Bool-cases (text_eq code code_backend_failure)) [
  | inl e ↦
      subst (λ d. action_error_status_allowed d (gateway_failure_status retryable) ≡ true)
        (sym ((text_eq_iff code code_backend_failure).0 e)) (backend_failure-allowed retryable)
  | inr other ↦
      let e : text_eq code code_action_failed ≡ true = ground arith in
      subst (λ d. action_error_status_allowed d (gateway_failure_status retryable) ≡ true)
        (sym ((text_eq_iff code code_action_failed).0 e)) (action_failed-allowed retryable)
]

failed-known : is_known_action_error_code code_action_failed ≡ true
unfolding is_known_action_error_code
failed-known = refl

known_if :
    (b : Bool) (code : Text)
    → is_known_action_error_code code ≡ true
    → is_known_action_error_code (if b then code_action_failed else code) ≡ true
known_if true code h = failed-known
known_if false code h = h

module _ (lower : Text → Text) where
  -- A message without the traces of secrets, addresses, control characters and SQL, of a bounded size.
  pub record IsClean (message : Text) : Type 0 where
    pub no_secret : any (has_substring (lower message)) secret_markers ≡ false
    pub no_control : any is_unsafe_rune message ≡ false
    pub no_sql : any (has_substring (lower message)) sql_markers ≡ false
    pub short : byte_length message ≤ max_action_error_message_bytes

  safe_message-IsClean :
      (message : Text)
      → (safe_action_error_message lower message ≡ default_action_failure_message)
        ⊎ IsClean (safe_action_error_message lower message)
  unfolding safe_action_error_message
  safe_message-IsClean message = elim (Bool-cases (is_unsafe_message lower (trim_space message))) [
    | inl hit ↦ inl (rw (hit, safe_action_error_message) refl)
    | inr clean ↦ inr (
        rw (clean, safe_action_error_message)
          (record {
            no_secret = ground arith;
            no_control = ground arith;
            no_sql = ground arith;
            short = ground arith;
          }))
  ]

  -- An error on the wire: a code of the contract with a status that the contract gives it, and the
  -- default message or a clean one.
  pub record IsLeaving (w : WireFailure) : Type 0 where
    pub known : is_known_action_error_code w.code ≡ true
    pub allowed : action_error_status_allowed w.code w.status ≡ true
    pub message : (w.message ≡ default_action_failure_message) ⊎ IsClean w.message

  settle-IsLeaving :
      (code message : Text) (status : ℕ) (retryable : Bool)
      → is_known_action_error_code code ≡ true
      → (message ≡ default_action_failure_message) ⊎ IsClean message
      → IsLeaving (settle lower code message status retryable)
  unfolding settle
  settle-IsLeaving code message status retryable known clean =
      elim (Bool-cases (action_error_status_allowed code status)) [
        | inl fits ↦ rw (fits, settle) (record { known = known; allowed = fits; message = clean })
        | inr other ↦ elim (Bool-cases (gateway_code code)) [
          | inl gateway ↦
              rw (other, gateway, settle)
                (record {
                  known = known;
                  allowed = gateway-allowed code retryable gateway;
                  message = clean;
                })
          | inr neither ↦
              rw (other, neither, settle)
                (record {
                  known = unfold is_known_action_error_code in refl;
                  allowed = unfold action_error_status_allowed in refl;
                  message = inl refl;
                })
        ]
      ]

  known_or_failed-known :
      (code : Text) → is_known_action_error_code (known_or_failed lower code) ≡ true
  known_or_failed-known code = elim (Bool-cases (is_known_action_error_code code)) [
    | inl known ↦ rw known known
    | inr unknown ↦ rw unknown failed-known
  ]

  leaving_code-known : (e : ActionError) → is_known_action_error_code (leaving_code lower e) ≡ true
  leaving_code-known e =
      let code = known_or_failed lower (trim_space e.code) in
      known_if
        (text_eq (safe_action_error_message lower e.message) default_action_failure_message
          && not (text_eq code code_action_failed))
        code (known_or_failed-known (trim_space e.code))

  -- Whatever the failure, `writeFailure` writes a known code, a status that the table allows for the
  -- code, and either the default message or one without markers of secrets, addresses or SQL, without
  -- control characters, and of at most 512 bytes.
  pub write_failure-IsLeaving : (e : ActionError) → IsLeaving (write_failure lower e)
  unfolding write_failure
  write_failure-IsLeaving e =
      settle-IsLeaving (leaving_code lower e) (safe_action_error_message lower e.message)
        (if e.status == 0
          then default_action_error_status (leaving_code lower e) e.retryable
          else e.status)
        e.retryable (leaving_code-known e) (safe_message-IsClean e.message)
