-- ===== src/Query/Targets.antt =====
-- The targets that the backend is asked about.
use provider_databricks.Prelude.{List, Text, ℤ}
use provider_databricks.Query.Sql.{TableRef}

-- `queryapi.TableTarget`, flattened.
pub record TableTarget : Type 0 where
  pub table : TableRef
  pub connection_name : Text
  pub host : Text
  pub auth_type : Text
  pub warehouse_name : Text
  pub warehouse_id : Text
  pub bearer_token : Text

-- `backend.QueryExecutionTarget`, its connection and warehouse flattened.
pub record QueryExecutionTarget : Type 0 where
  pub table : TableRef
  pub connection_name : Text
  pub host : Text
  pub auth_type : Text
  pub warehouse_name : Text
  pub warehouse_id : Text
  pub bearer_token : Text
  pub projection : List Text
  pub limit : ℤ
  pub allowed_columns : List Text
