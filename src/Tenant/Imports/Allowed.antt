-- ===== src/Tenant/Imports/Allowed.antt =====
-- What a registration that is answered was allowed to do.
use provider_databricks.Prelude.{
  Bool, true, false, not, List, [], Option, none, some, Text, runes, text_eq_iff, trim_space,
  Result, ok, err, reject_if, >>=-eq-ok, ok-injective, ok≢err, Result-cases, true_of_not,
  false≢true, inl, inr, ◌≡◌, refl, sym, ap, subst,
}
use provider_databricks.Failure.{Failure}
use provider_databricks.Tenant.Resolvers.{Identity}
use provider_databricks.Imports.{kind_table, Request, NormalizedItem, resource_for_kind}
use provider_databricks.Tenant.Imports.{
  check_registration, Object, RegistrationResult, register_items,
}
use provider_databricks.Tenant.Imports.Endpoint.{
  Refusal, or_refused, present, ImportCall, RegistrationJson, ImportClient, ImportFactory,
  resource_client, connection_ref_of, is_connection, import_request_identity, preflight_tables,
  preflight, answered, refused, decode_registration, admit, serve_registration,
}

or_refused-eq-ok {ℓ} :
    {A : Type ℓ} (refuse : Failure → Refusal) (r : Result Failure A) {a : A}
    → or_refused refuse r ≡ ok a
    → r ≡ ok a
or_refused-eq-ok refuse (ok a) h = cc
or_refused-eq-ok refuse (err e) h = absurd (ok≢err (sym h))

present-eq-ok {ℓ} :
    {A : Type ℓ} (r : Refusal) (o : Option A) {a : A} → present r o ≡ ok a → o ≡ some a
present-eq-ok r (some a) h = cc
present-eq-ok r none h = absurd (ok≢err (sym h))

not_rejected : (bad : Bool) (e : Refusal) → reject_if bad e ≡ ok tt → bad ≡ false
not_rejected true e h = absurd (ok≢err (sym h))
not_rejected false e h = refl

answered-injective : {rs qs : List RegistrationResult} → answered rs ≡ answered qs → rs ≡ qs
answered-injective h = cc

refused≢answered : {r : Refusal} {rs : List RegistrationResult} → refused r ≡ answered rs → ⊥
refused≢answered h = cc

module _ (lower : Text → Text) (equal_fold : Text → Text → Bool) (is_dns : Text → Bool)
    (json : RegistrationJson) {W C : Type 0} (factory : Option (ImportFactory W C)) where
  -- The calls before the preflight, with their answers.
  pub record IsAdmitted (call : ImportCall) (client : ImportClient W) (request : Request)
      (items : List NormalizedItem) : Type 0 where
    pub identity : Identity
    pub decoded : Request
    pub f : ImportFactory W C
    pub connection : C
    pub identified : import_request_identity equal_fold call.headers ≡ ok identity
    pub decodes : decode_registration json call ≡ ok decoded
    pub checks : check_registration lower is_dns decoded ≡ ok (request, items)
    pub has_factory : factory ≡ some f
    pub may_read :
        f.authorize_resource identity.cluster_id identity.token
          (runes "connections")
          request.connection_ref
          (runes "get")
        ≡ ok tt
    pub resolves : f.resolve_connection identity.cluster_id request.connection_ref ≡ ok connection
    pub may_get :
        f.authorize_resource identity.cluster_id identity.token
          (resource_for_kind equal_fold request.kind)
          []
          (runes "get")
        ≡ ok tt
    pub may_create :
        f.authorize_resource identity.cluster_id identity.token
          (resource_for_kind equal_fold request.kind)
          []
          (runes "create")
        ≡ ok tt
    pub acts : f.client_for identity.cluster_id identity.token ≡ ok client

  admit-IsAdmitted :
      (call : ImportCall) (client : ImportClient W) (request : Request)
      (items : List NormalizedItem)
      → admit lower equal_fold is_dns json factory call ≡ ok (client, request, items)
      → IsAdmitted call client request items
  unfolding admit
  admit-IsAdmitted call client request items h =
      let (identity, h1, k1) = >>=-eq-ok _ _ h in
      let (decoded, h2, k2) = >>=-eq-ok _ _ k1 in
      let ((checked, normalized), h3, k3) = >>=-eq-ok _ _ k2 in
      let (f, h4, k4) = >>=-eq-ok _ _ k3 in
      let (_, h5, k5) = >>=-eq-ok _ _ k4 in
      let (connection, h6, k6) = >>=-eq-ok _ _ k5 in
      let (_, h7, k7) = >>=-eq-ok _ _ k6 in
      let (_, h8, k8) = >>=-eq-ok _ _ k7 in
      let (client', h9, k9) = >>=-eq-ok _ _ k8 in
      subst
        (λ (answer : ImportClient W × Request × List NormalizedItem).
          IsAdmitted call answer.0 answer.1 answer.2)
        {x = (client', checked, normalized)} (ok-injective k9)
        (record {
          identity = identity;
          decoded = decoded;
          f = f;
          connection = connection;
          identified = or_refused-eq-ok _ _ h1;
          decodes = h2;
          checks = or_refused-eq-ok _ _ h3;
          has_factory = present-eq-ok _ _ h4;
          may_read = or_refused-eq-ok _ _ h5;
          resolves = or_refused-eq-ok _ _ h6;
          may_get = or_refused-eq-ok _ _ h7;
          may_create = or_refused-eq-ok _ _ h8;
          acts = or_refused-eq-ok _ _ h9;
        })

  is_connection-eq :
      (connection : Text) (actual : Option Text)
      → is_connection connection actual ≡ true
      → actual ≡ some connection
  is_connection-eq connection none h = absurd (false≢true h)
  is_connection-eq connection (some actual) h = ap some ((text_eq_iff actual connection).0 h)

  -- The warehouse of a table is there, and belongs to the connection.
  abbrev pub HasWarehouse : ImportClient W → Request → W → Type 0
  HasWarehouse client request w =
      (warehouse : Object) × ((client.warehouses.get (trim_space request.warehouse_ref) w).1
        ≡ ok warehouse)
      × (connection_ref_of warehouse ≡ some request.connection_ref)

  preflight_tables-HasWarehouse :
      (client : ImportClient W) (request : Request) (w : W)
      → (preflight_tables client request w).1 ≡ ok tt
      → HasWarehouse client request w
  unfolding preflight_tables
  preflight_tables-HasWarehouse client request w h =
      elim (Result-cases (client.warehouses.get (trim_space request.warehouse_ref) w).1) [
        | inr (e, stopped) ↦ absurd (ok≢err (sym (rw (stopped, preflight_tables) at h)))
        | inl (warehouse, there) ↦
            let same = true_of_not (
              not_rejected
                (not (is_connection request.connection_ref (connection_ref_of warehouse))) _
                (rw (there, preflight_tables) at h)) in
            (warehouse, there, is_connection-eq _ _ same)
      ]

  preflight-HasWarehouse :
      (client : ImportClient W) (request : Request) (w : W)
      → (preflight client request w).1 ≡ ok tt
      → request.kind ≡ kind_table
      → HasWarehouse client request w
  unfolding preflight
  preflight-HasWarehouse client request w h same =
      preflight_tables-HasWarehouse client request w
        (rw ((text_eq_iff request.kind kind_table).1 same, preflight) at h)

  -- What stands behind the results of a registration.
  pub record IsAllowed (is_already_exists : Failure → Bool) (call : ImportCall) (w : W)
      (results : List RegistrationResult) : Type 0 where
    pub client : ImportClient W
    pub request : Request
    pub items : List NormalizedItem
    pub admitted : IsAdmitted call client request items
    pub has_warehouse : request.kind ≡ kind_table → HasWarehouse client request w
    pub registered :
        results
        ≡ (register_items
            (resource_client request client)
            is_already_exists
            request
            items
            (preflight client request w).0).1

  -- Where a registration is answered, the request has an identity, its body is one that the checks
  -- accept, the caller may read the connection and may get and create resources of the kind, the
  -- connection resolves, for tables the caller sees a warehouse of that connection, and the results are
  -- those of the registration of the items with the caller's own client.
  pub serve_registration-IsAllowed :
      (is_already_exists : Failure → Bool) (call : ImportCall) (w : W)
      (results : List RegistrationResult)
      → (serve_registration lower equal_fold is_dns json factory is_already_exists call w).1
        ≡ answered results
      → IsAllowed is_already_exists call w results
  unfolding serve_registration
  serve_registration-IsAllowed is_already_exists call w results h =
      elim (Result-cases (admit lower equal_fold is_dns json factory call)) [
        | inr (r, stopped) ↦ absurd (refused≢answered (rw (stopped, serve_registration) at h))
        | inl ((client, request, items), passed) ↦
            elim (Result-cases (preflight client request w).1) [
              | inr (r, stopped) ↦
                  absurd (refused≢answered (rw (passed, stopped, serve_registration) at h))
              | inl (tt, ready) ↦ record {
                client = client;
                request = request;
                items = items;
                admitted = admit-IsAdmitted call client request items passed;
                has_warehouse = preflight-HasWarehouse client request w ready;
                registered = sym (answered-injective (rw (passed, ready, serve_registration) at h));
              }
            ]
      ]
