-- ===== src/Tenant/Imports.antt =====
-- The registration of tenant/import.go: the checks of `serveRegistration` on a decoded request, and
-- `registerOne` for each of its items.
pub mod Accepted
pub mod Registered
pub mod Endpoint
pub mod Factory
pub mod Allowed
use provider_databricks.Prelude.{
  ℕ, suc, ◌+◌, if◌then◌else◌, Bool, true, false, not, List, [], ◌∷◌, ◌++◌, Option, none, some, Text,
  runes, contains, text_eq, trim_space, itoa, Result, ok, err, ◌>>=◌, ◌>>◌, reject_if,
}
use provider_databricks.Prelude.Maps.{Map}
use provider_databricks.Failure.{Failure, plain, is_not_found}
use provider_databricks.Imports.{
  kind_table, Request, Item, NormalizedItem, Value, spec_equal, normalized_kind, validate,
  normalize,
}

-- The error of an item, with its index.
abbrev pub or_item {ℓ} : {A : Type ℓ} → ℕ → Result Failure A → Result Failure A
or_item index (ok a) = ok a
or_item index (err e) = err (plain (runes "item " ++ (itoa index ++ (runes ": " ++ e.message))))

-- `lower` is `strings.ToLower`, and `is_dns` whether `NameIsDNSSubdomain` finds no problem.
module _ (lower : Text → Text) (is_dns : Text → Bool) where
  -- The loop over the items, from an index; the second list is what is left of them.
  unfoldable pub normalize_items :
      Request → (index : ℕ) → (seen : List Text) → List Item → Result Failure (List NormalizedItem)
  unfolding normalize contains itoa
  normalize_items request index seen [] = ok []
  normalize_items request index seen (_ ∷ items) = do
    item ← or_item index (normalize lower is_dns request index)
    reject_if (contains item.name seen)
        (plain (runes "item " ++ (itoa index ++ runes ": resource name is duplicated")))
    rest ← normalize_items request (index + 1) (item.name ∷ seen) items
    ok (item ∷ rest)

  abbrev pub with_kind : Request → Request
  with_kind request = record request { kind = normalized_kind lower request }

  abbrev pub with_refs : Request → Request
  with_refs request = record request {
    connection_ref = trim_space request.connection_ref;
    warehouse_ref = trim_space request.warehouse_ref;
  }

  -- The request as it goes on, and its items.
  unfoldable pub check_registration : Request → Result Failure (Request × List NormalizedItem)
  unfolding normalized_kind validate normalize_items trim_space
  check_registration decoded = do
    validate lower is_dns (with_kind decoded)
    items ← normalize_items (with_refs (with_kind decoded)) 0 [] decoded.items
    ok (with_refs (with_kind decoded), items)

-- An object as the API server keeps it; its spec is `none` where it is no map.
pub record Object : Type 0 where
  pub kind : Text
  pub name : Text
  pub spec : Option (Map Value)

-- The caller's client for one resource. `W` is what the API server stores, which others may change
-- during a call too.
pub record ResourceClient (W : Type 0) : Type 0 where
  pub get : Text → W → W × Result Failure Object
  pub create : Object → W → W × Result Failure (Unit {0})

pub data RegistrationState : Type 0 where
  created existing conflict failed : RegistrationState

pub record RegistrationResult : Type 0 where
  pub index : ℕ
  pub name : Text
  pub state : RegistrationState
  pub message : Text

abbrev texts : Map Text → Map Value
texts [] = []
texts ((key, value) ∷ spec) = (key, Value.text_value value) ∷ texts spec

unfoldable pub object_for_item : Request → NormalizedItem → Object
unfolding text_eq
object_for_item request item = record {
  kind = if text_eq request.kind kind_table then runes "Table" else runes "Warehouse";
  name = item.name;
  spec = some (texts item.spec);
}

abbrev pub result_of : NormalizedItem → RegistrationState → Text → RegistrationResult
result_of item state message = record {
  index = item.index;
  name = item.name;
  state = state;
  message = message;
}

-- The result where an object of the name is found.
unfoldable pub found_result : NormalizedItem → Object → RegistrationResult
unfolding spec_equal
found_result item found =
    if spec_equal found.spec item.spec
    then result_of item existing []
    else result_of item conflict (runes "a resource with this name has a different specification")

-- `is_already_exists` is `apierrors.IsAlreadyExists`.
module _ {W : Type 0} (client : ResourceClient W) (is_already_exists : Failure → Bool) where
  -- The second look, once somebody else has created the resource.
  unfoldable pub verify_concurrent : NormalizedItem → W → W × RegistrationResult
  unfolding found_result
  verify_concurrent item w =
      let looked = client.get item.name w in
      elim looked.1 [
        | ok found ↦ (looked.0, found_result item found)
        | err e ↦ (
          looked.0,
          result_of item failed (runes "could not verify the concurrently created resource"),
        )
      ]

  unfoldable pub create_one : Request → NormalizedItem → W → W × RegistrationResult
  unfolding object_for_item verify_concurrent
  create_one request item w =
      let made = client.create (object_for_item request item) w in
      elim made.1 [
        | ok _ ↦ (made.0, result_of item created [])
        | err e ↦
            let verified = verify_concurrent item made.0 in
            if is_already_exists e
            then verified
            else (made.0, result_of item failed (runes "could not create the resource"))
      ]

  unfoldable pub register_one : Request → NormalizedItem → W → W × RegistrationResult
  unfolding found_result create_one
  register_one request item w =
      let looked = client.get item.name w in
      elim looked.1 [
        | ok found ↦ (looked.0, found_result item found)
        | err e ↦
            if is_not_found e
            then create_one request item looked.0
            else (looked.0, result_of item failed (runes "could not inspect the existing resource"))
      ]

  -- The loop over the normalized items.
  unfoldable pub register_items : Request → List NormalizedItem → W → W × List RegistrationResult
  unfolding register_one
  register_items request [] w = (w, [])
  register_items request (item ∷ items) w =
      let first = register_one request item w in
      let rest = register_items request items first.0 in (rest.0, first.1 ∷ rest.1)
