-- ===== src/Tenant/Imports/Accepted.antt =====
-- What the checks of a registration accept.
use provider_databricks.Prelude.{
  ℕ, suc, ◌+◌, ◌≤◌, ◌<◌, ltb, if◌then◌else◌, Bool, true, false, not, ◌&&◌, ◌||◌, List, [], ◌∷◌,
  some, Text, runes, is_empty, length, map, contains_iff, IsIn, text_eq, text_eq_iff, ◌⊎◌,
  trim_space, byte_length, Result, ok, err, reject_if-eq-ok, >>=-eq-ok, ok-injective, ok≢err,
  Bool-cases, true_of_not, not_ltb→le, false≢true, inl, inr, ◌≡◌, refl, sym, ap, ◌∙◌, subst, arith,
}
use provider_databricks.Prelude.Maps.{Map}
use provider_databricks.Failure.{Failure}
use provider_databricks.Query.Request.Controls.{Distinct, Avoids, Avoids-tail}
use provider_databricks.Imports.{
  max_items, max_field_bytes, kind_warehouse, kind_table, Request, Item, NormalizedItem, has_break,
  bad_identifier, item_at, normalized_kind, warehouse_spec, table_spec, validate, normalize_item,
  normalize,
}
use provider_databricks.Tenant.Imports.{
  or_item, normalize_items, with_kind, with_refs, check_registration,
}

abbrev pub names : List NormalizedItem → List Text
names = map (λ (item : NormalizedItem). item.name)

-- The positions count up.
abbrev pub AreCounted : ℕ → List NormalizedItem → Type 0
AreCounted index [] = Unit
AreCounted index (item ∷ items) = (item.index ≡ index) × AreCounted (index + 1) items

abbrev pub connection_of : Request → Text × Text
connection_of request = (runes "connectionRef", trim_space request.connection_ref)

-- A field that is given, without a line break or a zero byte.
pub record IsField (most : ℕ) (field : Text) : Type 0 where
  pub given : is_empty field ≡ false
  pub few : byte_length field ≤ most
  pub plain : has_break field ≡ false

-- The spec of an item, by the kind of the request: the fields of its kind as the item gives them,
-- trimmed, and no field of the other kind is given.
pub data IsSpec (kind : Text) (request : Request) (source : Item) : Map Text → Type 0 where
  for_warehouse :
      kind ≡ kind_warehouse
      → IsField max_field_bytes (trim_space source.warehouse_id)
      → (is_empty source.catalog ≡ true)
        × (is_empty source.schema ≡ true)
        × (is_empty source.table ≡ true)
      → IsSpec kind request source
          (connection_of request ∷ (runes "warehouseID", trim_space source.warehouse_id) ∷ [])
  for_table :
      kind ≡ kind_table
      → IsField 255 (trim_space source.catalog)
      → IsField 255 (trim_space source.schema)
      → IsField 255 (trim_space source.table)
      → is_empty source.warehouse_id ≡ true
      → IsSpec kind request source (
          connection_of request
          ∷ (runes "warehouseRef", trim_space request.warehouse_ref)
          ∷ (runes "catalog", trim_space source.catalog)
          ∷ (runes "schema", trim_space source.schema)
          ∷ (runes "table", trim_space source.table)
          ∷ [])

or_parts : (a b : Bool) → (a || b) ≡ false → (a ≡ false) × (b ≡ false)
or_parts a b h = ground arith

not_and : (a b : Bool) → (not a && not b) ≡ false → (a ≡ true) ⊎ (b ≡ true)
not_and a b h = ground arith

bounded-IsField :
    (field : Text) → is_empty field ≡ false → bad_identifier field ≡ false → IsField 255 field
bounded-IsField field given good =
    let (few, plain) = or_parts (ltb 255 (byte_length field)) _ good in
    record { given = given; few = not_ltb→le _ _ few; plain = plain }

warehouse_spec-IsSpec :
    (kind : Text) (request : Request) (item : Item) (spec : Map Text)
    → kind ≡ kind_warehouse
    → warehouse_spec request item ≡ ok spec
    → IsSpec kind request item spec
unfolding warehouse_spec
warehouse_spec-IsSpec kind request item spec same h =
    let (whole, h1) = reject_if-eq-ok _ _ _ h in
    let (few, h2) = reject_if-eq-ok _ _ _ h1 in
    let (plain, h3) = reject_if-eq-ok _ _ _ h2 in
    let (given, others) = or_parts (is_empty (trim_space item.warehouse_id)) _ whole in
    let (catalog, others') = or_parts (not (is_empty item.catalog)) _ others in
    let (schema, table) = or_parts (not (is_empty item.schema)) _ others' in
    subst (IsSpec kind request item) (ok-injective h3) (
      for_warehouse same (record { given = given; few = not_ltb→le _ _ few; plain = plain })
        (true_of_not catalog, true_of_not schema, true_of_not table))

table_spec-IsSpec :
    (kind : Text) (request : Request) (item : Item) (spec : Map Text)
    → kind ≡ kind_table
    → table_spec request item ≡ ok spec
    → IsSpec kind request item spec
unfolding table_spec
table_spec-IsSpec kind request item spec same h =
    let (whole, h1) = reject_if-eq-ok _ _ _ h in
    let (good, h2) = reject_if-eq-ok _ _ _ h1 in
    let (catalog, more) = or_parts (is_empty (trim_space item.catalog)) _ whole in
    let (schema, more') = or_parts (is_empty (trim_space item.schema)) _ more in
    let (table, no_id) = or_parts (is_empty (trim_space item.table)) _ more' in
    let (good_catalog, others) = or_parts (bad_identifier (trim_space item.catalog)) _ good in
    let (good_schema, good_table) = or_parts (bad_identifier (trim_space item.schema)) _ others in
    subst (IsSpec kind request item) (ok-injective h2) (
      for_table same (bounded-IsField _ catalog good_catalog) (bounded-IsField _ schema good_schema)
        (bounded-IsField _ table good_table) (true_of_not no_id))

module _ (lower : Text → Text) (is_dns : Text → Bool) where
  -- What becomes of an item: its trimmed name and its spec.
  pub record IsItem (request : Request) (source : Item) (item : NormalizedItem) : Type 0 where
    pub same_name : item.name ≡ trim_space source.name
    pub named : is_dns item.name ≡ true
    pub specified : IsSpec (normalized_kind lower request) request source item.spec

  -- Each item in its place.
  abbrev pub AreItems : Request → List Item → List NormalizedItem → Type 0
  AreItems request [] [] = Unit
  AreItems request (source ∷ sources) (item ∷ items) =
      IsItem request source item × AreItems request sources items
  AreItems request _ _ = ⊥

  abbrev IsKind : Text → Type 0
  IsKind kind = (kind ≡ kind_warehouse) ⊎ (kind ≡ kind_table)

  normalize_item-IsItem :
      (request : Request) (index : ℕ) (source : Item) (item : NormalizedItem)
      → IsKind (normalized_kind lower request)
      → normalize_item lower is_dns request index source ≡ ok item
      → (item.index ≡ index) × IsItem request source item
  unfolding normalize_item
  normalize_item-IsItem request index source item known h =
      let (named, h1) = reject_if-eq-ok _ _ _ h in
      let kind = normalized_kind lower request in
      let (spec, made, h2) =
        >>=-eq-ok
          (if text_eq kind kind_warehouse
            then warehouse_spec request source
            else table_spec request source)
          _ h1 in
      subst (λ (i : NormalizedItem). (i.index ≡ index) × IsItem request source i) (ok-injective h2)
        (
          refl,
          record {
            same_name = refl;
            named = true_of_not named;
            specified = elim (Bool-cases (text_eq kind kind_warehouse)) [
              | inl here ↦
                  warehouse_spec-IsSpec kind request source spec
                    ((text_eq_iff kind kind_warehouse).0 here) (rw (here) at made)
              | inr other ↦ elim known [
                | inl here ↦
                    absurd (false≢true (sym other ∙ (text_eq_iff kind kind_warehouse).1 here))
                | inr there ↦ table_spec-IsSpec kind request source spec there (rw (other) at made)
              ]
            ];
          },
        )

  normalize-IsItem :
      (request : Request) (index : ℕ) (source : Item) (item : NormalizedItem)
      → item_at index request.items ≡ some source
      → IsKind (normalized_kind lower request)
      → normalize lower is_dns request index ≡ ok item
      → (item.index ≡ index) × IsItem request source item
  unfolding normalize
  normalize-IsItem request index source item there known h =
      normalize_item-IsItem request index source item known (rw (there, normalize) at h)

  or_item-eq-ok :
      {A : Type 0} (index : ℕ) (r : Result Failure A) {a : A} → or_item index r ≡ ok a → r ≡ ok a
  or_item-eq-ok index (ok a) h = h
  or_item-eq-ok index (err e) h = absurd (ok≢err (sym h))

  normalize_items-AreItems :
      (request : Request) (index : ℕ) (seen : List Text) (sources : List Item)
      (items : List NormalizedItem)
      → ((n : ℕ) → item_at (index + n) request.items ≡ item_at n sources)
      → IsKind (normalized_kind lower request)
      → normalize_items lower is_dns request index seen sources ≡ ok items
      → (length items ≡ length sources)
        × AreCounted index items
        × AreItems request sources items
        × Distinct (names items)
        × Avoids seen (names items)
  unfolding normalize_items item_at
  normalize_items-AreItems request index seen [] items left known h =
      subst
        (λ (found : List NormalizedItem).
          (length found ≡ 0)
          × AreCounted index found
          × AreItems request [] found
          × Distinct (names found)
          × Avoids seen (names found))
        (ok-injective h) (refl, tt, tt, tt, tt)
  normalize_items-AreItems request index seen (source ∷ sources) items left known h =
      let there : item_at index request.items ≡ some source =
        subst (λ (n : ℕ). item_at n request.items ≡ some source) (omega arith) (left 0) in
      let later : (n : ℕ) → item_at (index + 1 + n) request.items ≡ item_at n sources = λ n.
        subst (λ (m : ℕ). item_at m request.items ≡ item_at n sources) (omega arith)
          (left (suc n)) in
      let (item, made, h1) = >>=-eq-ok _ _ h in
      let (fresh, h2) = reject_if-eq-ok _ _ _ h1 in
      let (rest, looped, h3) = >>=-eq-ok _ _ h2 in
      let (at, good) =
        normalize-IsItem request index source item there known (or_item-eq-ok index _ made) in
      let (same, counted, all, distinct, avoids) =
        normalize_items-AreItems request (index + 1) (item.name ∷ seen) sources rest later known
          looped in
      let (avoids', apart) = Avoids-tail item.name seen (names rest) avoids in
      let unseen : ¬ IsIn item.name seen =
        λ old. false≢true (sym fresh ∙ (contains_iff item.name seen).1 old) in
      subst
        (λ (found : List NormalizedItem).
          (length found ≡ suc (length sources))
          × AreCounted index found
          × AreItems request (source ∷ sources) found
          × Distinct (names found)
          × Avoids seen (names found))
        (ok-injective h3)
        (ap suc same, (at, counted), (good, all), (apart, distinct), (unseen, avoids'))

  -- What `check_registration` answers.
  pub record IsRegistration (decoded request : Request) (items : List NormalizedItem) : Type 0 where
    pub connected : is_dns (trim_space decoded.connection_ref) ≡ true
    pub refs : request ≡ with_refs lower is_dns (with_kind lower is_dns decoded)
    pub some_items : 0 < length items
    pub few_items : length items ≤ max_items
    pub all_items : length items ≡ length decoded.items
    pub counted : AreCounted 0 items
    pub normalized : AreItems request decoded.items items
    pub distinct : Distinct (names items)

  nonempty : {A : Type 0} (xs : List A) → is_empty xs ≡ false → 0 < length xs
  nonempty [] h = absurd (false≢true (sym h))
  nonempty (x ∷ xs) h = omega arith

  -- A registration that is accepted has between 1 and 50 items, one for each item of the request in
  -- its place, with its trimmed name, all distinct DNS subdomains; the spec of each one has the trimmed
  -- connection of the request, for a table also its warehouse, and under their names the trimmed fields
  -- of the kind that its item gives, not empty, within their bounds, without line breaks, where the
  -- item gives no field of the other kind; and the connection is a DNS subdomain.
  pub check_registration-IsRegistration :
      (decoded request : Request) (items : List NormalizedItem)
      → check_registration lower is_dns decoded ≡ ok (request, items)
      → IsRegistration decoded request items
  unfolding check_registration validate
  check_registration-IsRegistration decoded request items h =
      let from_start : (n : ℕ) → item_at (0 + n) decoded.items ≡ item_at n decoded.items =
        λ n. ap (λ (m : ℕ). item_at m decoded.items) (omega arith) in
      let (_, valid, h1) = >>=-eq-ok (validate lower is_dns (with_kind lower is_dns decoded)) _ h in
      let (found, looped, h2) = >>=-eq-ok _ _ h1 in
      let kind = normalized_kind lower (with_kind lower is_dns decoded) in
      let (kinds, v1) =
        reject_if-eq-ok (not (text_eq kind kind_warehouse) && not (text_eq kind kind_table)) _ _
          valid in
      let (_, v2) =
        reject_if-eq-ok
          (is_empty (trim_space decoded.connection_ref)
            || ltb 253 (byte_length decoded.connection_ref))
          _ _ v1 in
      let (connected, v3) =
        reject_if-eq-ok (not (is_dns (trim_space decoded.connection_ref))) _ _ v2 in
      let (counts, _) =
        reject_if-eq-ok (is_empty decoded.items || ltb max_items (length decoded.items)) _ _ v3 in
      let (some_items, few) = or_parts (is_empty decoded.items) _ counts in
      let known : IsKind kind = elim (not_and (text_eq kind kind_warehouse) _ kinds) [
        | inl here ↦ inl ((text_eq_iff kind kind_warehouse).0 here)
        | inr there ↦ inr ((text_eq_iff kind kind_table).0 there)
      ] in
      let (same, counted, all, distinct, _) =
        normalize_items-AreItems (with_refs lower is_dns (with_kind lower is_dns decoded)) 0 []
          decoded.items found from_start known looped in
      subst (λ (r : Request × List NormalizedItem). IsRegistration decoded r.0 r.1)
        (ok-injective h2)
        (record {
          connected = true_of_not connected;
          refs = refl;
          some_items = subst (λ (n : ℕ). 0 < n) (sym same) (nonempty decoded.items some_items);
          few_items = omega (arith, same, not_ltb→le max_items (length decoded.items) few);
          all_items = same;
          counted = counted;
          normalized = all;
          distinct = distinct;
        })
