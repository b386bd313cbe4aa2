-- ===== src/Api.antt =====
-- apis/databricks/v1alpha1/types.go: the three resources with the parts of their metadata that the
-- provider reads, and metav1.Condition without its transition time, which the provider never reads.
-- A generation is an int64 that the API server counts up from 1.
use provider_databricks.Prelude.{ℕ, Bool, List, Option, Text, runes}
use provider_databricks.Failure.{Reason}

pub data ConditionStatus : Type 0 where
  condition_true condition_false condition_unknown : ConditionStatus

pub record Condition : Type 0 where
  pub type : Text
  pub status : ConditionStatus
  pub reason : Reason
  pub message : Text
  pub observed_generation : ℕ

abbrev pub condition_validated : Text
condition_validated = runes "Validated"

abbrev pub condition_ready : Text
condition_ready = runes "Ready"

pub record LocalSecretReference : Type 0 where
  pub name : Text
  pub namespace : Text
  pub key : Text

abbrev pub connection_auth_pat : Text
connection_auth_pat = runes "pat"

pub record ConnectionSpec : Type 0 where
  pub host : Text
  pub auth_type : Text
  pub secret_ref : LocalSecretReference

pub record ConnectionStatus : Type 0 where
  pub observed_generation : ℕ
  pub workspace_id : Text
  pub conditions : List Condition

pub record Connection : Type 0 where
  pub name : Text
  pub generation : ℕ
  pub deletion_timestamp : Option ℕ
  pub spec : ConnectionSpec
  pub status : ConnectionStatus

pub record WarehouseSpec : Type 0 where
  pub connection_ref : Text
  pub warehouse_id : Text

pub record WarehouseStatus : Type 0 where
  pub observed_generation : ℕ
  pub state : Text
  pub conditions : List Condition

pub record Warehouse : Type 0 where
  pub name : Text
  pub generation : ℕ
  pub deletion_timestamp : Option ℕ
  pub spec : WarehouseSpec
  pub status : WarehouseStatus

pub record Column : Type 0 where
  pub name : Text
  pub type : Text
  pub nullable : Bool
  pub comment : Text

pub record TableSpec : Type 0 where
  pub connection_ref : Text
  pub warehouse_ref : Text
  pub catalog : Text
  pub schema : Text
  pub table : Text

-- `refreshed_at` in seconds.
pub record TableStatus : Type 0 where
  pub observed_generation : ℕ
  pub refreshed_at : Option ℕ
  pub columns : List Column
  pub conditions : List Condition

pub record Table : Type 0 where
  pub name : Text
  pub generation : ℕ
  pub deletion_timestamp : Option ℕ
  pub spec : TableSpec
  pub status : TableStatus
