-- ===== src/Tests/Reconcilers.antt =====
-- Tests of the reconcilers on a small cluster.
use provider_databricks.Prelude.{
  ◌≡◌, refl, sym, ap, ◌∙◌, List, [], ◌∷◌, some, runes, Result, ok, ok-injective, some-injective,
  arith,
}
use provider_databricks.Failure.{Failure}
use provider_databricks.Api.{Connection, Warehouse, Table, TableSpec, Column}
use provider_databricks.Controller.Connections.{ConnectionValidator, reconcile_connection}
use provider_databricks.Controller.Connections.Readiness.{reconcile_connection-IsSettled}
use provider_databricks.Controller.Connections.Readiness as ConnectionReadiness
use provider_databricks.Controller.Warehouses.{WarehouseValidator, reconcile_warehouse}
use provider_databricks.Controller.Warehouses.Readiness.{reconcile_warehouse-IsSettled}
use provider_databricks.Controller.Warehouses.Readiness as WarehouseReadiness
use provider_databricks.Controller.Tables.{TableValidator, target_of}
use provider_databricks.Query.Targets.{TableTarget}
use provider_databricks.Controller.Tables.Readiness.{reconcile_table-IsSettled}
use provider_databricks.Controller.Tables.Readiness as TableReadiness
use provider_databricks.Controller.Tables.Cache.{
  IsTrusted, edit, pass, Reach, here, next, IsCached, Reach-IsCached,
}
use provider_databricks.Tests.Cluster.{
  conditions_api, workspace, small, id_column, orders, cluster_with, plain_quote,
}

abbrev accepting_connection : ConnectionValidator
accepting_connection =
    some (λ target. ok (record { principal = runes "me"; workspace_id = runes "42" }))

refreshes_later :
    (reconcile_connection plain_quote plain_quote conditions_api accepting_connection
      (cluster_with (ok orders))
      (runes "main")).outcome
    ≡ ok 300
unfolding reconcile_connection
refreshes_later = refl

reconcile_connection-IsSettled_example :
    (conn' : Connection) × ((reconcile_connection plain_quote plain_quote conditions_api
        accepting_connection
        (cluster_with (ok orders))
        (runes "main")).updated
      ≡ some conn')
    × ConnectionReadiness.IsSettled plain_quote conditions_api accepting_connection
        (cluster_with (ok orders))
        workspace
        conn'
reconcile_connection-IsSettled_example =
    reconcile_connection-IsSettled plain_quote plain_quote conditions_api accepting_connection
      (cluster_with (ok orders)) (runes "main") workspace refl refl

abbrev accepting_warehouse : WarehouseValidator
accepting_warehouse = some (λ target. ok (record { name = runes "Small"; state = runes "STOPPED" }))

reconcile_warehouse-IsSettled_example :
    (wh' : Warehouse) × ((reconcile_warehouse conditions_api plain_quote plain_quote
        accepting_warehouse
        (cluster_with (ok orders))
        (runes "small")).updated
      ≡ some wh')
    × WarehouseReadiness.IsSettled plain_quote conditions_api accepting_warehouse
        (cluster_with (ok orders))
        small
        wh'
reconcile_warehouse-IsSettled_example =
    reconcile_warehouse-IsSettled plain_quote plain_quote conditions_api accepting_warehouse
      (cluster_with (ok orders)) (runes "small") small refl refl

abbrev accept_table : TableTarget → Result Failure (List Column)
accept_table target = ok (id_column ∷ [])

abbrev accepting_table : TableValidator
accepting_table = some accept_table

-- A table before its first pass, and after an edit.
abbrev new_table : Table
new_table = record orders {
  status = record orders.status { observed_generation = 0; columns = [] };
}

abbrev edited_spec : TableSpec
edited_spec = record orders.spec { table = runes "invoices" }

abbrev edited : Table
edited = record new_table { spec = edited_spec; generation = 2 }

abbrev FindsId : TableSpec → List Column → Type 0
FindsId spec found = found ≡ id_column ∷ []

accepting_table-IsTrusted : IsTrusted plain_quote plain_quote conditions_api FindsId accepting_table
accepting_table-IsTrusted v tbl wh conn token found configured answer =
    ok-injective
      (sym answer ∙ ap (λ f. f (target_of tbl wh conn token)) (sym (some-injective configured)))

edited_and_passed : (t : Table) × Reach plain_quote plain_quote conditions_api FindsId new_table t
edited_and_passed =
    let (t, updated, settled) =
      reconcile_table-IsSettled plain_quote plain_quote conditions_api 9 accepting_table
        (cluster_with (ok edited)) (runes "orders") edited refl refl in
    (
      t,
      next (next here (edit new_table edited_spec)) (
          pass 9 accepting_table (cluster_with (ok edited)) (runes "orders")
            accepting_table-IsTrusted refl refl updated),
    )

Reach-IsCached_example : IsCached plain_quote plain_quote conditions_api FindsId edited_and_passed.0
Reach-IsCached_example =
    Reach-IsCached plain_quote plain_quote conditions_api FindsId new_table edited_and_passed.0
      (omega arith) refl edited_and_passed.1
