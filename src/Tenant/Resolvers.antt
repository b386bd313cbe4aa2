-- ===== src/Tenant/Resolvers.antt =====
-- The table resolver of tenant/client.go, which reads the tables of a workspace as the caller, and
-- the identity that it takes from a request.
pub mod Pages
use provider_databricks.Prelude.{
  ℕ, suc, ◌+◌, ltb, ◌==◌, if◌then◌else◌, Bool, true, false, not, ◌&&◌, ◌||◌, List, [], ◌∷◌, Option,
  none, some, Text, runes, is_empty, length, take, trim_space, Result, ok, err, ◌>>=◌, ◌>>◌,
  reject_if, ℤ, pos, negsuc,
}
use provider_databricks.Prelude.Maps.{Map, put}
use provider_databricks.Failure.{Failure, plain, is_not_found}
use provider_databricks.Query.Sql.{TableRef}
use provider_databricks.Query.Outcome.{QueryColumn}

abbrev pub max_table_list_items : ℕ
max_table_list_items = 256

-- An entry of `status.columns`: its `name` and `type` where they are strings, if it is a map.
pub data RawColumn : Type 0 where
  other_value : RawColumn
  entry : (name type : Option Text) → RawColumn

-- A Table as the dynamic client returns it: its name, what `unstructured.NestedString` finds under
-- `spec` and `status`, which is empty where there is no string, and `status.columns`.
pub record TableObject : Type 0 where
  pub name : Text
  pub catalog : Text
  pub schema : Text
  pub table : Text
  pub raw_columns : List RawColumn
  pub refreshed_at : Text

pub record TableList : Type 0 where
  pub items : List TableObject
  pub continue : Text

-- A dynamic client for the tables of a cluster.
pub record TablesClient : Type 0 where
  pub list : (limit : ℕ) → Result Failure TableList
  pub get : Text → Result Failure TableObject

-- `identity`
pub record Identity : Type 0 where
  pub tenant : Text
  pub cluster_id : Text
  pub token : Text

-- The headers of a request.
pub record Headers : Type 0 where
  pub tenant : Text
  pub cluster : Text
  pub authorization : Text

-- `strings.SplitN(s, " ", 2)`, where there are two parts.
unfoldable pub split_space : Text → Option (Text × Text)
split_space [] = none
split_space (c ∷ s) =
    let rest = split_space s in
    if c == b' '
    then some ([], s)
    else elim rest [ none ↦ none | some parts ↦ some (c ∷ parts.0, parts.1) ]

-- `equal_fold` is `strings.EqualFold`.
module _ (equal_fold : Text → Text → Bool) where
  unfoldable pub bearer_token : Text → Text
  unfolding trim_space split_space
  bearer_token authorization = elim (split_space (trim_space authorization)) [
    | none ↦ []
    | some parts ↦ if equal_fold parts.0 (runes "Bearer") then trim_space parts.1 else []
  ]

  unfoldable pub identity_from_request : Headers → Identity
  unfolding bearer_token
  identity_from_request headers = record {
    tenant = headers.tenant;
    cluster_id = headers.cluster;
    token = bearer_token headers.authorization;
  }

unfoldable pub table_ref_from_object : TableObject → Option TableRef
unfolding trim_space
table_ref_from_object item =
    if is_empty (trim_space item.catalog)
      || (is_empty (trim_space item.schema) || is_empty (trim_space item.table))
    then none
    else some (record { catalog = item.catalog; schema = item.schema; table = item.table })

-- `limit < 1`
abbrev pub list_limit : ℤ → ℕ
list_limit (pos n) = if ltb n 1 then max_table_list_items else n
list_limit (negsuc n) = max_table_list_items

unfoldable pub refs_of : Map TableRef → List TableObject → Map TableRef
unfolding table_ref_from_object put
refs_of out [] = out
refs_of out (item ∷ items) = elim (table_ref_from_object item) [
  | none ↦ refs_of out items
  | some ref ↦ refs_of (put item.name ref out) items
]

abbrev string_or_empty : Option Text → Text
string_or_empty none = []
string_or_empty (some s) = s

unfoldable pub schema_columns : List RawColumn → List QueryColumn
unfolding trim_space
schema_columns [] = []
schema_columns (other_value ∷ raw) = schema_columns raw
schema_columns (entry name type ∷ raw) =
    let rest = schema_columns raw in
    if is_empty (trim_space (string_or_empty name))
    then rest
    else record { name = string_or_empty name; type = string_or_empty type } ∷ rest

-- `client_for` is the method `For` of the factory, `none` where the factory is nil.
module _ (client_for : Option ((cluster_id token : Text) → Result Failure TablesClient))
    (identity : Identity) where
  unfoldable pub dynamic_client : Result Failure TablesClient
  dynamic_client = do
    reject_if (is_empty identity.tenant) (
        plain
          (runes "no tenant identity on this request; bearer token did not resolve to a workspace"))
    reject_if (is_empty identity.cluster_id)
        (plain (runes "no workspace cluster on this request (X-Faros-Cluster missing)"))
    elim client_for [
      | none ↦ err (plain (runes "tenant client unavailable (provider kubeconfig not set)"))
      | some for ↦ for identity.cluster_id identity.token
    ]

  -- The tables and whether there are more.
  unfoldable pub list_tables_bounded : ℤ → Result Failure (Map TableRef × Bool)
  unfolding dynamic_client refs_of
  list_tables_bounded limit = do
    let most = list_limit limit
    client ← dynamic_client
    list ← client.list (most + 1)
    ok (
      refs_of [] (take most list.items),
      ltb most (length list.items) || not (is_empty list.continue),
    )

  unfoldable pub list_tables : Result Failure (Map TableRef)
  unfolding list_tables_bounded
  list_tables = do found ← list_tables_bounded (pos max_table_list_items); ok found.0

  -- A table that is missing or has no reference is `none`.
  unfoldable pub get_table : Text → Result Failure (Option TableRef)
  unfolding dynamic_client table_ref_from_object
  get_table name = do
    client ← dynamic_client
    elim (client.get name) [
      | ok item ↦ ok (table_ref_from_object item)
      | err e ↦ if is_not_found e then ok none else err e
    ]

  unfoldable pub get_table_schema : Text → Result Failure (List QueryColumn × Text)
  unfolding dynamic_client schema_columns
  get_table_schema name = do
    client ← dynamic_client
    elim (client.get name) [
      | ok item ↦ ok (schema_columns item.raw_columns, item.refreshed_at)
      | err e ↦ if is_not_found e then ok ([], []) else err e
    ]
