-- ===== src/Tenant/Imports/Registered.antt =====
-- What `registerOne` of tenant/import.go, for each item in turn, leaves on the API server.
use provider_databricks.Prelude.{
  Bool, true, false, List, [], ◌∷◌, Option, some, Text, ok, err, Result-cases, if◌then◌else◌, inl,
  inr, ◌≡◌, refl,
}
use provider_databricks.Failure.{Failure, is_not_found}
use provider_databricks.Imports.{Request, NormalizedItem, spec_equal}
use provider_databricks.Tenant.Imports.{
  Object, ResourceClient, RegistrationResult, created, existing, conflict, failed, result_of,
  object_for_item, found_result, verify_concurrent, create_one, register_one, register_items,
}

-- Where `stored` is what the API server has under a name: a get returns it, a create that succeeds
-- stores its object, and meanwhile nobody changes or deletes an object, though others may create them.
pub record IsServer {W : Type 0} (stored : W → Text → Option Object) (client : ResourceClient W)
    : Type 0 where
  pub get_finds :
      (name : Text) (w : W) (found : Object)
      → (client.get name w).1 ≡ ok found
      → stored (client.get name w).0 name ≡ some found
  pub get_keeps :
      (name : Text) (w : W) (other : Text) (object : Object)
      → stored w other ≡ some object
      → stored (client.get name w).0 other ≡ some object
  pub create_stores :
      (object : Object) (w : W)
      → (client.create object w).1 ≡ ok tt
      → stored (client.create object w).0 object.name ≡ some object
  pub create_keeps :
      (object : Object) (w : W) (other : Text) (present : Object)
      → stored w other ≡ some present
      → stored (client.create object w).0 other ≡ some present

either :
    {A : Type 0} (P : A → Type 0) (b : Bool) {x y : A}
    → (b ≡ true → P x)
    → (b ≡ false → P y)
    → P (if b then x else y)
either P true h k = h refl
either P false h k = k refl

module _ {W : Type 0} (stored : W → Text → Option Object) (client : ResourceClient W)
    (is_already_exists : Failure → Bool) (request : Request) where
  -- Every object that is stored before is stored after, unchanged.
  abbrev pub Keeps : W → W → Type 0
  Keeps before after =
      (name : Text) (object : Object)
      → stored before name ≡ some object
      → stored after name ≡ some object

  -- What a result says of the API server.
  pub data Settles (item : NormalizedItem) (w : W) : RegistrationResult → Type 0 where
    as_created :
        stored w item.name ≡ some (object_for_item request item)
        → Settles item w (result_of item created [])
    as_existing :
        (found : Object)
        → stored w item.name ≡ some found
        → spec_equal found.spec item.spec ≡ true
        → Settles item w (result_of item existing [])
    as_conflict :
        (found : Object) (message : Text)
        → stored w item.name ≡ some found
        → spec_equal found.spec item.spec ≡ false
        → Settles item w (result_of item conflict message)
    not_inspected :
        (v : W) (e : Failure) (message : Text)
        → (client.get item.name v).1 ≡ err e
        → is_not_found e ≡ false
        → Settles item w (result_of item failed message)
    not_created :
        (v : W) (e : Failure) (message : Text)
        → (client.create (object_for_item request item) v).1 ≡ err e
        → is_already_exists e ≡ false
        → Settles item w (result_of item failed message)
    not_verified :
        (v : W) (d e : Failure) (message : Text)
        → (client.create (object_for_item request item) v).1 ≡ err d
        → is_already_exists d ≡ true
        → (client.get item.name (client.create (object_for_item request item) v).0).1 ≡ err e
        → Settles item w (result_of item failed message)

  -- A result for each item, in order.
  abbrev pub AllSettle : W → List NormalizedItem → List RegistrationResult → Type 0
  AllSettle w [] [] = Unit
  AllSettle w (item ∷ items) (result ∷ results) = Settles item w result × AllSettle w items results
  AllSettle w _ _ = ⊥

  Settles-Keeps :
      (item : NormalizedItem) (before after : W) (result : RegistrationResult)
      → Keeps before after
      → Settles item before result
      → Settles item after result
  Settles-Keeps item before after result keeps (as_created s) = as_created (keeps _ _ s)
  Settles-Keeps item before after result keeps (as_existing found s same) =
      as_existing found (keeps _ _ s) same
  Settles-Keeps item before after result keeps (as_conflict found message s other) =
      as_conflict found message (keeps _ _ s) other
  Settles-Keeps item before after result keeps (not_inspected v e message stopped other) =
      not_inspected v e message stopped other
  Settles-Keeps item before after result keeps (not_created v e message stopped other) =
      not_created v e message stopped other
  Settles-Keeps item before after result keeps (not_verified v d e message stopped exists again) =
      not_verified v d e message stopped exists again

  found-Settles :
      (item : NormalizedItem) (w : W) (found : Object)
      → stored w item.name ≡ some found
      → Settles item w (found_result item found)
  unfolding found_result
  found-Settles item w found there =
      either (Settles item w) (spec_equal found.spec item.spec) (as_existing found there)
        (as_conflict found _ there)

  -- What one registration does.
  abbrev Does : NormalizedItem → W → W × RegistrationResult → Type 0
  Does item before out = Keeps before out.0 × Settles item out.0 out.1

  module _ (server : IsServer stored client) where
    verify_concurrent-Does :
        (item : NormalizedItem) (v : W) (d : Failure)
        → (client.create (object_for_item request item) v).1 ≡ err d
        → is_already_exists d ≡ true
        → Does item (client.create (object_for_item request item) v).0 (
            verify_concurrent client is_already_exists item
              (client.create (object_for_item request item) v).0)
    unfolding verify_concurrent
    verify_concurrent-Does item v d stopped exists =
        let w = (client.create (object_for_item request item) v).0 in
        elim (Result-cases (client.get item.name w).1) [
          | inl (found, there) ↦
              rw (there, verify_concurrent)
                (
                  server.get_keeps item.name w,
                  found-Settles item _ found (server.get_finds item.name w found there),
                )
          | inr (e, again) ↦
              rw (again, verify_concurrent)
                (server.get_keeps item.name w, not_verified v d e _ stopped exists again)
        ]

    create_one-Does :
        (item : NormalizedItem) (w : W)
        → Does item w (create_one client is_already_exists request item w)
    unfolding create_one object_for_item
    create_one-Does item w =
        let object = object_for_item request item in
        elim (Result-cases (client.create object w).1) [
          | inl (tt, made) ↦
              rw (made, create_one)
                (server.create_keeps object w, as_created (server.create_stores object w made))
          | inr (e, stopped) ↦
              rw (stopped, create_one)
                (either (Does item w) (is_already_exists e)
                  (λ exists.
                    let (keeps, settles) = verify_concurrent-Does item w e stopped exists in
                    (
                      (λ name present h.
                          keeps name present (server.create_keeps object w name present h)),
                      settles,
                    ))
                  (λ other. (server.create_keeps object w, not_created w e _ stopped other)))
        ]

    register_one-Does :
        (item : NormalizedItem) (w : W)
        → Does item w (register_one client is_already_exists request item w)
    unfolding register_one
    register_one-Does item w = elim (Result-cases (client.get item.name w).1) [
      | inl (found, there) ↦
          rw (there, register_one)
            (
              server.get_keeps item.name w,
              found-Settles item _ found (server.get_finds item.name w found there),
            )
      | inr (e, stopped) ↦
          rw (stopped, register_one)
            (either (Does item w) (is_not_found e)
              (λ missing.
                let (keeps, settles) = create_one-Does item (client.get item.name w).0 in
                (
                  (λ name present h.
                      keeps name present (server.get_keeps item.name w name present h)),
                  settles,
                ))
              (λ other. (server.get_keeps item.name w, not_inspected w e _ stopped other)))
    ]

    -- On a server that is an IsServer: after the registration of items, every object that was
    -- stored before is stored unchanged, and there is a result for each item in order: created
    -- where the object of the item is stored, existing or conflict where an object with the same
    -- or another spec is stored under its name, and failed only where a call of the API server
    -- failed.
    pub register_items-AllSettle :
        (items : List NormalizedItem) (w : W)
        → Keeps w (register_items client is_already_exists request items w).0
          × AllSettle
              (register_items client is_already_exists request items w).0
              items
              (register_items client is_already_exists request items w).1
    unfolding register_items
    register_items-AllSettle [] w = ((λ name object h. h), tt)
    register_items-AllSettle (item ∷ items) w =
        let (keeps, settles) = register_one-Does item w in
        let (keeps', rest) =
          register_items-AllSettle items (register_one client is_already_exists request item w).0 in
        (
          (λ name object h. keeps' name object (keeps name object h)),
          (Settles-Keeps item _ _ _ keeps' settles, rest),
        )
