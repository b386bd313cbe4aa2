-- ===== src/Imports.antt =====
-- importapi/importapi.go: the contract of a registration, which turns Databricks warehouses and tables
-- into resources of the provider. Its discovery client is left out.
use provider_databricks.Prelude.{
  ℕ, zero, suc, ltb, ◌==◌, if◌then◌else◌, Bool, true, false, not, ◌&&◌, ◌||◌, List, [], ◌∷◌, Option,
  none, some, any, Text, runes, is_empty, length, text_eq, trim_space, byte_length, Result, ok, err,
  ◌>>=◌, ◌>>◌, reject_if,
}
use provider_databricks.Prelude.Maps.{Map, lookup}
use provider_databricks.Failure.{Failure, plain}

abbrev pub max_items : ℕ
max_items = 50

abbrev pub max_field_bytes : ℕ
max_field_bytes = 2048

abbrev pub kind_warehouse : Text
kind_warehouse = runes "warehouse"

abbrev pub kind_table : Text
kind_table = runes "table"

pub record Item : Type 0 where
  pub name : Text
  pub warehouse_id : Text
  pub catalog : Text
  pub schema : Text
  pub table : Text

pub record Request : Type 0 where
  pub kind : Text
  pub connection_ref : Text
  pub warehouse_ref : Text
  pub items : List Item

pub record NormalizedItem : Type 0 where
  pub index : ℕ
  pub name : Text
  pub spec : Map Text

-- `strings.ContainsAny(value, "\r\n\x00")`
abbrev pub has_break : Text → Bool
has_break value = any (λ c. c == 13 || (c == 10 || c == 0)) value

-- `len(value) > 255 || strings.ContainsAny(value, "\r\n\x00")`
abbrev pub bad_identifier : Text → Bool
bad_identifier value = ltb 255 (byte_length value) || has_break value

-- `request.Items[index]`, where the index is in range.
unfoldable pub item_at : ℕ → List Item → Option Item
item_at index [] = none
item_at zero (item ∷ items) = some item
item_at (suc index) (item ∷ items) = item_at index items

-- A value under `spec` of an object that the API server returns.
pub data Value : Type 0 where
  text_value : Text → Value
  other_value : Value

-- `reflect.DeepEqual` of a map and one of texts, each with distinct keys.
unfoldable pub has_fields : Map Value → Map Text → Bool
unfolding lookup text_eq
has_fields actual [] = true
has_fields actual ((key, value) ∷ expected) =
    (elim (lookup key actual) [ some (text_value found) ↦ text_eq found value | _ ↦ false ])
    && has_fields actual expected

-- The spec of an object is `none` where it is no map.
unfoldable pub spec_equal : Option (Map Value) → Map Text → Bool
unfolding has_fields
spec_equal none expected = false
spec_equal (some actual) expected = (length actual == length expected) && has_fields actual expected

-- `lower` is `strings.ToLower`.
unfoldable pub normalized_kind : (lower : Text → Text) → Request → Text
unfolding trim_space
normalized_kind lower r = lower (trim_space r.kind)

unfoldable pub warehouse_spec : Request → Item → Result Failure (Map Text)
unfolding trim_space byte_length
warehouse_spec request item = do
  let id = trim_space item.warehouse_id
  reject_if
      (is_empty id
        || (not (is_empty item.catalog)
            || (not (is_empty item.schema) || not (is_empty item.table))))
      (plain (runes "warehouseID is required and table fields are not allowed"))
  reject_if (ltb max_field_bytes (byte_length id)) (plain (runes "warehouseID is too long"))
  reject_if (has_break id) (plain (runes "warehouseID is invalid"))
  ok ((runes "connectionRef", trim_space request.connection_ref) ∷ (runes "warehouseID", id) ∷ [])

unfoldable pub table_spec : Request → Item → Result Failure (Map Text)
unfolding trim_space byte_length
table_spec request item = do
  let catalog = trim_space item.catalog
  let schema = trim_space item.schema
  let table = trim_space item.table
  reject_if
      (is_empty catalog
        || (is_empty schema || (is_empty table || not (is_empty item.warehouse_id))))
      (plain (runes "catalog, schema, and table are required and warehouseID is not allowed"))
  reject_if (bad_identifier catalog || (bad_identifier schema || bad_identifier table))
      (plain (runes "table identifier is invalid"))
  ok (
      (runes "connectionRef", trim_space request.connection_ref)
      ∷ (runes "warehouseRef", trim_space request.warehouse_ref)
      ∷ (runes "catalog", catalog)
      ∷ (runes "schema", schema)
      ∷ (runes "table", table)
      ∷ [])

-- `is_dns` is whether `NameIsDNSSubdomain` finds no problem.
module _ (lower : Text → Text) (is_dns : Text → Bool) where
  unfoldable pub validate : Request → Result Failure (Unit {0})
  unfolding normalized_kind trim_space text_eq byte_length
  validate r = do
    let kind = normalized_kind lower r
    reject_if (not (text_eq kind kind_warehouse) && not (text_eq kind kind_table))
        (plain (runes "kind must be warehouse or table"))
    reject_if (is_empty (trim_space r.connection_ref) || ltb 253 (byte_length r.connection_ref))
        (plain (runes "connectionRef is required and must be at most 253 bytes"))
    reject_if (not (is_dns (trim_space r.connection_ref)))
        (plain (runes "connectionRef must name a Kubernetes resource"))
    reject_if (is_empty r.items || ltb max_items (length r.items))
        (plain (runes "items must contain between 1 and 50 entries"))
    reject_if (text_eq kind kind_table && is_empty (trim_space r.warehouse_ref))
        (plain (runes "warehouseRef is required for table registration"))
    reject_if (text_eq kind kind_table && not (is_dns (trim_space r.warehouse_ref)))
        (plain (runes "warehouseRef must name a Kubernetes resource"))

  -- `Normalize`, at the item of an index that is in range.
  unfoldable pub normalize_item : Request → ℕ → Item → Result Failure NormalizedItem
  unfolding normalized_kind warehouse_spec table_spec trim_space text_eq
  normalize_item request index item = do
    let name = trim_space item.name
    reject_if (not (is_dns name)) (plain (runes "name must be a DNS subdomain"))
    spec ←
        if text_eq (normalized_kind lower request) kind_warehouse
        then warehouse_spec request item
        else table_spec request item
    ok (record { index = index; name = name; spec = spec })

  unfoldable pub normalize : Request → ℕ → Result Failure NormalizedItem
  unfolding item_at normalize_item
  normalize request index = elim (item_at index request.items) [
    | none ↦ err (plain (runes "item index is out of range"))
    | some item ↦ normalize_item request index item
  ]

-- `equal_fold` is `strings.EqualFold`.
unfoldable pub resource_for_kind : (equal_fold : Text → Text → Bool) → Text → Text
unfolding trim_space
resource_for_kind equal_fold kind =
    if equal_fold (trim_space kind) kind_table then runes "tables" else runes "warehouses"
