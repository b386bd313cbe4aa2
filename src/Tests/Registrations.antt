-- ===== src/Tests/Registrations.antt =====
-- Tests of importapi/importapi.go and the registration of tenant/import.go: two tables, one of which
-- is there before, on a server that keeps a map of objects, and a caller who may do all.
use provider_databricks.Prelude.{
  ◌≡◌, refl, sym, ap, ◌∙◌, true, [], ◌∷◌, List, Option, none, some, Bool, Bool-cases, some≢none,
  ok≢err, not, if◌then◌else◌, inl, inr, Text, runes, is_empty, text_eq, text_eq_iff, text_eq_refl,
  Result, ok, err,
}
use provider_databricks.Prelude.Maps.{Map, lookup, put, lookup-put}
use provider_databricks.Failure.{Failure, Link, ApiReason}
use provider_databricks.Imports.{Request, Item, NormalizedItem, Value}
use provider_databricks.Tenant.Imports.{
  Object, ResourceClient, RegistrationState, RegistrationResult, check_registration, register_items,
}
use provider_databricks.Tenant.Imports.Accepted.{IsRegistration, check_registration-IsRegistration}
use provider_databricks.Tenant.Imports.Endpoint.{
  ImportCall, RegistrationJson, ImportFactory, Answer, answered, serve_registration,
}
use provider_databricks.Tenant.Imports.Allowed.{IsAllowed, serve_registration-IsAllowed}
use provider_databricks.Tenant.Clients.{TextApi, ClientFactory, new_client_factory, set_authority}
use provider_databricks.Tenant.Imports.Factory.{
  ImportConnection, IsImportable, resolve_import_connection, resolve_import_connection-IsImportable,
}
use provider_databricks.Shared.{ClusterApi}
use provider_databricks.Tests.Cluster.{cluster_with, orders}
use provider_databricks.Tenant.Imports.Registered.{
  IsServer, Keeps, AllSettle, register_items-AllSettle,
}

abbrev missing_object : Failure
missing_object = record {
  message = runes "missing";
  chain = Link.api_status ApiReason.not_found ∷ [];
}

abbrev taken : Failure
taken = record { message = runes "taken"; chain = [] }

abbrev is_taken : Failure → Bool
is_taken e = text_eq e.message (runes "taken")

abbrev found_or_missing : Option Object → Result Failure Object
found_or_missing none = err missing_object
found_or_missing (some object) = ok object

-- A create does not replace an object.
abbrev created_in : Object → Map Object → Option Object → Map Object × Result Failure (Unit {0})
created_in object w none = (put object.name object w, ok tt)
created_in object w (some _) = (w, err taken)

abbrev server : ResourceClient (Map Object)
server = record {
  get = λ name w. (w, found_or_missing (lookup name w));
  create = λ object w. created_in object w (lookup object.name w);
}

abbrev stored : Map Object → Text → Option Object
stored w name = lookup name w

found_of : (o : Option Object) (found : Object) → found_or_missing o ≡ ok found → o ≡ some found
found_of none found h = absurd (ok≢err (sym h))
found_of (some object) found h = cc

created-put :
    (object : Object) (w : Map Object) (o : Option Object)
    → (created_in object w o).1 ≡ ok tt
    → lookup object.name (created_in object w o).0 ≡ some object
created-put object w none h =
    lookup-put object.name object.name object w
    ∙ ap (λ (b : Bool). if b then some object else lookup object.name w) (text_eq_refl object.name)
created-put object w (some present) h = absurd (ok≢err (sym h))

created-keeps :
    (object : Object) (w : Map Object) (o : Option Object) (other : Text) (present : Object)
    → lookup object.name w ≡ o
    → lookup other w ≡ some present
    → lookup other (created_in object w o).0 ≡ some present
created-keeps object w (some _) other present same h = h
created-keeps object w none other present same h = elim (Bool-cases (text_eq object.name other)) [
  | inl here ↦ absurd (
      some≢none (
        sym h
        ∙ (ap (λ (name : Text). lookup name w) (sym ((text_eq_iff object.name other).0 here))
            ∙ same)))
  | inr apart ↦
      lookup-put other object.name object w
      ∙ (ap (λ (b : Bool). if b then some object else lookup other w) apart ∙ h)
]

server-IsServer : IsServer stored server
server-IsServer = record {
  get_finds = λ name w found h. found_of (lookup name w) found h;
  get_keeps = λ name w other object h. h;
  create_stores = λ object w h. created-put object w (lookup object.name w) h;
  create_keeps = λ object w other present h.
      created-keeps object w (lookup object.name w) other present refl h;
}

abbrev table_item : (name table : Text) → Item
table_item name table = record {
  name = name;
  warehouse_id = [];
  catalog = runes "main";
  schema = runes " sales ";
  table = table;
}

abbrev decoded : Request
decoded = record {
  kind = runes " table";
  connection_ref = runes "prod ";
  warehouse_ref = runes "small";
  items =
      table_item (runes "orders") (runes "orders")
      ∷ table_item (runes "lines") (runes "lines")
      ∷ [];
}

abbrev no_change : Text → Text
no_change t = t

abbrev names_anything : Text → Bool
names_anything t = not (is_empty t)

abbrev checked : Result Failure (Request × List NormalizedItem)
checked = check_registration no_change names_anything decoded

abbrev accepted : Request × List NormalizedItem
accepted = elim checked [ ok answer ↦ answer | err e ↦ (decoded, []) ]

checked-accepted : checked ≡ ok (accepted.0, accepted.1)
unfolding check_registration text_eq
checked-accepted = refl

check_registration-IsRegistration_example :
    IsRegistration no_change names_anything decoded accepted.0 accepted.1
check_registration-IsRegistration_example =
    check_registration-IsRegistration no_change names_anything decoded accepted.0 accepted.1
      checked-accepted

-- An object of the name `lines` with another spec.
abbrev before : Map Object
before = (runes "lines", record { kind = runes "Table"; name = runes "lines"; spec = some [] }) ∷ []

abbrev states : List RegistrationResult → List RegistrationState
states [] = []
states (result ∷ results) = result.state ∷ states results

one_conflict :
    states (register_items server is_taken accepted.0 accepted.1 before).1
    ≡ RegistrationState.created ∷ RegistrationState.conflict ∷ []
unfolding register_items check_registration lookup put text_eq
one_conflict = refl

register_items-AllSettle_example :
    Keeps stored server is_taken accepted.0 before
      (register_items server is_taken accepted.0 accepted.1 before).0
    × AllSettle stored server is_taken accepted.0
        (register_items server is_taken accepted.0 accepted.1 before).0
        accepted.1
        (register_items server is_taken accepted.0 accepted.1 before).1
register_items-AllSettle_example =
    register_items-AllSettle stored server is_taken accepted.0 server-IsServer accepted.1 before

abbrev factory : ImportFactory (Map Object) Text
factory = record {
  resolve_connection = λ cluster_id name. ok name;
  authorize_resource = λ cluster_id token resource name verb. ok tt;
  client_for = λ cluster_id token. ok (record { warehouses = server; tables = server });
}

abbrev reader : RegistrationJson
reader = record { decode = λ body. some decoded; at_end = λ body. true }

abbrev call : ImportCall
call = record {
  headers = record {
    tenant = runes "team";
    cluster = runes "c1";
    authorization = runes "Bearer secret";
  };
  media_type = some (runes "application/json");
  body = some (runes "{}");
}

-- The warehouse of the request, on its connection.
abbrev with_warehouse : Map Object
with_warehouse =
    (
      runes "small",
      record {
        kind = runes "Warehouse";
        name = runes "small";
        spec = some ((runes "connectionRef", Value.text_value (runes "prod")) ∷ []);
      },
    )
    ∷ []

abbrev serve : Map Object → Map Object × Answer
serve = serve_registration no_change text_eq names_anything reader (some factory) is_taken call

abbrev results_of : Answer → List RegistrationResult
results_of (answered results) = results
results_of (Answer.refused r) = []

serve-answered : (serve with_warehouse).1 ≡ answered (results_of (serve with_warehouse).1)
unfolding serve_registration lookup put text_eq
serve-answered = refl

both_created :
    states (results_of (serve with_warehouse).1)
    ≡ RegistrationState.created ∷ RegistrationState.created ∷ []
unfolding serve_registration lookup put text_eq
both_created = refl

serve_registration-IsAllowed_example :
    IsAllowed no_change text_eq names_anything reader
      (some factory)
      is_taken
      call
      with_warehouse
      (results_of (serve with_warehouse).1)
serve_registration-IsAllowed_example =
    serve_registration-IsAllowed no_change text_eq names_anything reader (some factory) is_taken
      call with_warehouse (results_of (serve with_warehouse).1) serve-answered

abbrev texts_as_they_are : TextApi
texts_as_they_are = record {
  parse = λ host. err missing_object;
  render = λ u. u.host;
  path_escape = λ t. t;
  quote = λ t. t;
  sha256 = λ t. t;
}

-- The authority has the same client for every cluster.
abbrev factory_with_authority : ClientFactory ClusterApi Text Text
factory_with_authority =
    set_authority texts_as_they_are (some (λ cluster_id. ok (some (cluster_with (ok orders)))))
      new_client_factory

abbrev importable : Result Failure ImportConnection
importable =
    resolve_import_connection texts_as_they_are no_change no_change factory_with_authority
      (runes "c1") (runes " main")

abbrev imported : ImportConnection
imported = elim importable [
  | ok found ↦ found
  | err e ↦ record { host = []; auth_type = []; token = [] }
]

importable-imported : importable ≡ ok imported
unfolding resolve_import_connection set_authority
importable-imported = refl

resolve_import_connection-IsImportable_example :
    IsImportable texts_as_they_are no_change no_change factory_with_authority
      (runes "c1")
      (runes " main")
      imported
resolve_import_connection-IsImportable_example =
    resolve_import_connection-IsImportable texts_as_they_are no_change no_change
      factory_with_authority (runes "c1") (runes " main") imported importable-imported
