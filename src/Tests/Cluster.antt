-- ===== src/Tests/Cluster.antt =====
-- A small cluster: one connection, warehouse and table that are ready, and validators that accept.
use provider_databricks.Prelude.{
  refl, false, List, [], ◌∷◌, Option, none, some, Text, runes, Result, ok, text_eq, if◌then◌else◌,
}
use provider_databricks.Failure.{Failure, ready}
use provider_databricks.Api.{
  Condition, condition_true, condition_validated, condition_ready, Connection, Warehouse, Table,
  Column,
}
use provider_databricks.Shared.{ConditionApi, ClusterApi}

-- The newest condition of a type stands first.
abbrev find_first : List Condition → Text → Option Condition
find_first [] type = none
find_first (c ∷ cs) type = if text_eq c.type type then some c else find_first cs type

abbrev pub conditions_api : ConditionApi
conditions_api = record {
  set_status_condition = λ cs c. c ∷ cs;
  find_status_condition = find_first;
  find-set = λ cs c type. refl;
}

abbrev holds : Text → Condition
holds type = record {
  type = type;
  status = condition_true;
  reason = ready;
  message = runes "";
  observed_generation = 1;
}

abbrev pub workspace : Connection
workspace = record {
  name = runes "main";
  generation = 1;
  deletion_timestamp = none;
  spec = record {
    host = runes "https://dbc-1.cloud.databricks.com";
    auth_type = runes "pat";
    secret_ref = record { name = runes "creds"; namespace = runes ""; key = runes "" };
  };
  status = record {
    observed_generation = 1;
    workspace_id = runes "42";
    conditions = holds condition_validated ∷ holds condition_ready ∷ [];
  };
}

abbrev pub small : Warehouse
small = record {
  name = runes "small";
  generation = 1;
  deletion_timestamp = none;
  spec = record { connection_ref = runes "main"; warehouse_id = runes "0123456789abcdef" };
  status = record {
    observed_generation = 1;
    state = runes "RUNNING";
    conditions = holds condition_ready ∷ [];
  };
}

abbrev pub id_column : Column
id_column = record {
  name = runes "id";
  type = runes "STRING";
  nullable = false;
  comment = runes "";
}

abbrev pub orders : Table
orders = record {
  name = runes "orders";
  generation = 1;
  deletion_timestamp = none;
  spec = record {
    connection_ref = runes "main";
    warehouse_ref = runes "small";
    catalog = runes "sales";
    schema = runes "gold";
    table = runes "orders";
  };
  status = record {
    observed_generation = 1;
    refreshed_at = some 7;
    columns = id_column ∷ [];
    conditions = holds condition_ready ∷ [];
  };
}

-- The cluster with `tbl` as its only table.
abbrev pub cluster_with : Result Failure Table → ClusterApi
cluster_with tbl = record {
  get_connection = λ name. ok workspace;
  get_warehouse = λ name. ok small;
  get_table = λ name. tbl;
  get_secret = λ namespace name. ok (λ key. some (runes "secret"));
  update_connection = λ c. none;
  update_warehouse = λ w. none;
  update_table = λ t. none;
}

abbrev pub plain_quote : Text → Text
plain_quote t = t
