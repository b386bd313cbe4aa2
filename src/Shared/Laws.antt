-- ===== src/Shared/Laws.antt =====
-- The conditions of controller/shared/shared.go: setting one and reading it.
use provider_databricks.Prelude.{ℕ, ==_refl, false, List, Text, text_eq, text_eq_refl, ◌≡◌, arith}
use provider_databricks.Failure.{Reason}
use provider_databricks.Api.{Condition, ConditionStatus}
use provider_databricks.Shared.{ConditionApi, set_condition, current_condition_true, is_true}

module _ (kube : ConditionApi) (conditions : List Condition) (type : Text)
    (status : ConditionStatus) (reason : Reason) (message : Text) where
  -- For the generation that it was set for, the condition reads as its status.
  pub current-set_condition :
      (generation : ℕ)
      → current_condition_true kube
          (set_condition kube conditions type status reason message generation)
          generation
          generation
          type
        ≡ is_true status
  unfolding current_condition_true set_condition
  current-set_condition generation =
      rw (==_refl generation, kube.find-set, text_eq_refl type) (ground arith)

  -- A condition of another type reads as before.
  pub current-set_other :
      (set_for observed generation : ℕ) (other : Text)
      → text_eq type other ≡ false
      → current_condition_true kube
          (set_condition kube conditions type status reason message set_for)
          observed
          generation
          other
        ≡ current_condition_true kube conditions observed generation other
  unfolding current_condition_true set_condition
  current-set_other set_for observed generation other h = simp (kube.find-set, h)
