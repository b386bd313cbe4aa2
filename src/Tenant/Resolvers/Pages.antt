-- ===== src/Tenant/Resolvers/Pages.antt =====
-- What `ListTablesBounded` of tenant/client.go lists.
use provider_databricks.Prelude.{◌+◌, ◌≡◌, ◌⊎◌, List, [], ◌∷◌, Option, some, Text, Result, ok, ℤ}
use provider_databricks.Failure.{Failure}
use provider_databricks.Query.Sql.{TableRef}
use provider_databricks.Tenant.Resolvers.{
  TableObject, TableList, TablesClient, Identity, table_ref_from_object, list_limit, dynamic_client,
}

-- One of the items has the name and the reference.
abbrev pub IsListed : Text → TableRef → List TableObject → Type 0
IsListed name ref [] = ⊥
IsListed name ref (item ∷ items) =
    ((item.name ≡ name) × (table_ref_from_object item ≡ some ref)) ⊎ IsListed name ref items

-- The page that the call asked the server for.
abbrev pub IsAsked :
    Option ((cluster_id token : Text) → Result Failure TablesClient)
    → Identity
    → ℤ
    → TableList
    → Type 0
IsAsked client_for identity limit page =
    (client : TablesClient) × (dynamic_client client_for identity ≡ ok client)
    × (client.list (list_limit limit + 1) ≡ ok page)
