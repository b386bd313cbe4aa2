-- ===== src/Actions/Requests/Deadlines.antt =====
-- The deadline of an action and its identifier, in actions/actions.go.
use provider_databricks.Prelude.{ℕ, ◌*◌, ◌^◌, ◌≤◌, ◌≡◌, arith, Text, ok}
use provider_databricks.Actions.Requests.{action_deadline, max_action_deadline_ms}

-- A deadline that is accepted lies between one millisecond and 45 seconds.
pub action_deadline_bounds :
    (header : Text) (deadline : ℕ)
    → action_deadline header ≡ ok deadline
    → (10 ^ 6 ≤ deadline) × (deadline ≤ max_action_deadline_ms * 10 ^ 6)
unfolding action_deadline
action_deadline_bounds header deadline h = ground arith
