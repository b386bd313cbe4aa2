-- ===== src/Tenant/Sanitize/Codes.antt =====
-- The status and the retry flag that `sanitizeActionError` gives.
use provider_databricks.Prelude.{◌≤◌, true, ◌≡◌}
use provider_databricks.Failure.{Failure}
use provider_databricks.Tenant.Sanitize.{ActionError, gateway_failure_status, is_gateway_code}

-- A status that a caller may see: an HTTP error, and for a failure of the backend or of the action
-- the gateway's, 503 exactly where a retry may help.
pub record IsSafeStatus (e : ActionError) : Type 0 where
  pub error : (400 ≤ e.status) × (e.status ≤ 599)
  pub gateway : is_gateway_code e.code ≡ true → e.status ≡ gateway_failure_status e.retryable
