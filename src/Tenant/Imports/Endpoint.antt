-- ===== src/Tenant/Imports/Endpoint.antt =====
-- `serveRegistration` of tenant/import.go, from the headers to the results.
use provider_databricks.Prelude.{
  ℕ, ◌*◌, ltb, ◌==◌, if◌then◌else◌, Bool, false, not, ◌||◌, List, [], Option, none, some, any, Text,
  runes, is_empty, text_eq, trim_space, byte_length, Result, ok, err, ◌>>=◌, ◌>>◌, reject_if,
}
use provider_databricks.Prelude.Maps.{lookup}
use provider_databricks.Failure.{
  Failure, Link, plain, first_of_kind, is_not_found, is_forbidden, is_unauthorized,
}
use provider_databricks.Tenant.Resolvers.{Identity, Headers, bearer_token}
use provider_databricks.Imports.{kind_table, Request, NormalizedItem, Value, resource_for_kind}
use provider_databricks.Tenant.Imports.{
  check_registration, Object, ResourceClient, RegistrationResult, register_items,
}

-- `64 << 10`
abbrev pub max_request_bytes : ℕ
max_request_bytes = 64 * 1024

-- What `writeImportError` writes.
pub record Refusal : Type 0 where
  pub status : ℕ
  pub reason : Text
  pub message : Text

abbrev pub refusal : ℕ → (reason message : Text) → Refusal
refusal status reason message = record { status = status; reason = reason; message = message }

abbrev as_import_error : Link → Option Refusal
as_import_error (Link.import_error status reason message) = some (refusal status reason message)
as_import_error _ = none

unfoldable pub operation_refusal : Failure → (fallback : Text) → Refusal
operation_refusal e fallback = elim (first_of_kind as_import_error e.chain) [
  | some typed ↦ typed
  | none ↦
      if is_forbidden e || is_unauthorized e
      then refusal 403 (runes "Forbidden") fallback
      else if is_not_found e
      then refusal 404 (runes "NotFound") fallback
      else refusal 502 (runes "OperationFailed") fallback
]

abbrev pub or_refused {ℓ} : {A : Type ℓ} → (Failure → Refusal) → Result Failure A → Result Refusal A
or_refused refuse (ok a) = ok a
or_refused refuse (err e) = err (refuse e)

abbrev pub present {ℓ} : {A : Type ℓ} → Refusal → Option A → Result Refusal A
present refuse (some a) = ok a
present refuse none = err refuse

abbrev has_line_break : Text → Bool
has_line_break s = any (λ c. c == 13 || c == 10) s

-- `strings.ContainsAny(s, "/\\\r\n")`
abbrev has_path_break : Text → Bool
has_path_break s = any (λ c. c == b'/' || (c == 92 || (c == 13 || c == 10))) s

unfoldable pub import_request_identity :
    (equal_fold : Text → Text → Bool) → Headers → Result Failure Identity
unfolding bearer_token trim_space
import_request_identity equal_fold headers = do
  let cluster = trim_space headers.cluster
  let tenant = trim_space headers.tenant
  let token = bearer_token equal_fold headers.authorization
  reject_if (is_empty tenant || is_empty cluster) (plain (runes "tenant identity is required"))
  reject_if (has_line_break tenant || has_path_break cluster)
      (plain (runes "tenant identity is invalid"))
  reject_if (is_empty token) (plain (runes "bearer token is required"))
  ok (record { tenant = tenant; cluster_id = cluster; token = token })

-- A request. The media type is what `mime.ParseMediaType` finds, and `none` where it fails; the body is
-- `none` where it cannot be read.
pub record ImportCall : Type 0 where
  pub headers : Headers
  pub media_type : Option Text
  pub body : Option Text

-- What `json.Decoder` reads of a body, without unknown fields: `none` where it fails; and whether it is
-- at the end after that.
pub record RegistrationJson : Type 0 where
  pub decode : Text → Option Request
  pub at_end : Text → Bool

-- `dynamic.Interface`, for the resources that a registration uses.
pub record ImportClient (W : Type 0) : Type 0 where
  pub warehouses : ResourceClient W
  pub tables : ResourceClient W

-- `ImportFactory`, for the caller of a request. `C` is the type of connections.
pub record ImportFactory (W C : Type 0) : Type 0 where
  pub resolve_connection : (cluster_id name : Text) → Result Failure C
  pub authorize_resource : (cluster_id token resource name verb : Text) → Result Failure (Unit {0})
  pub client_for : (cluster_id token : Text) → Result Failure (ImportClient W)

abbrev pub resource_client : {W : Type 0} → Request → ImportClient W → ResourceClient W
resource_client request client =
    if text_eq request.kind kind_table then client.tables else client.warehouses

-- `unstructured.NestedString(object, "spec", "connectionRef")`
abbrev pub connection_ref_of : Object → Option Text
connection_ref_of object = elim object.spec [
  | none ↦ none
  | some spec ↦ elim (lookup (runes "connectionRef") spec) [
    | some (Value.text_value value) ↦ some value
    | _ ↦ none
  ]
]

abbrev pub is_connection : Text → Option Text → Bool
is_connection connection none = false
is_connection connection (some actual) = text_eq actual connection

abbrev preflight_refusal : Failure → Refusal
preflight_refusal e =
    if is_not_found e
    then refusal 404 (runes "NotFound") (runes "warehouseRef is not visible to the caller")
    else if is_forbidden e || is_unauthorized e
    then refusal 403 (runes "Forbidden") (runes "caller is not allowed to read warehouseRef")
    else refusal 502 (runes "PreflightFailed") (runes "could not verify warehouseRef")

module _ {W : Type 0} where
  unfoldable pub preflight_tables : ImportClient W → Request → W → W × Result Refusal (Unit {0})
  unfolding lookup text_eq trim_space
  preflight_tables client request w =
      let looked = client.warehouses.get (trim_space request.warehouse_ref) w in
      elim looked.1 [
        | err e ↦ (looked.0, err (preflight_refusal e))
        | ok warehouse ↦ (
          looked.0,
          reject_if (not (is_connection request.connection_ref (connection_ref_of warehouse))) (
              refusal 409 (runes "ConnectionMismatch")
                (runes "warehouseRef belongs to a different connection")),
        )
      ]

  unfoldable pub preflight : ImportClient W → Request → W → W × Result Refusal (Unit {0})
  unfolding preflight_tables text_eq
  preflight client request w =
      let looked = preflight_tables client request w in
      if text_eq request.kind kind_table then looked else (w, ok tt)

-- The answer: the results, with status 200, or a refusal.
pub data Answer : Type 0 where
  answered : List RegistrationResult → Answer
  refused : Refusal → Answer

abbrev invalid : Text → Refusal
invalid message = refusal 400 (runes "ValidationError") message

-- The body of a request.
unfoldable pub decode_registration : RegistrationJson → ImportCall → Result Refusal Request
unfolding text_eq byte_length
decode_registration json call = do
  media_type ←
      present
        (refusal 415 (runes "UnsupportedMediaType") (runes "Content-Type must be application/json"))
        call.media_type
  reject_if (not (text_eq media_type (runes "application/json")))
      (refusal 415 (runes "UnsupportedMediaType") (runes "Content-Type must be application/json"))
  body ←
      present (refusal 413 (runes "RequestTooLarge") (runes "registration request is too large"))
        call.body
  reject_if (ltb max_request_bytes (byte_length body))
      (refusal 413 (runes "RequestTooLarge") (runes "registration request is too large"))
  decoded ← present (invalid (runes "registration request is invalid JSON")) (json.decode body)
  reject_if (not (json.at_end body))
      (invalid (runes "registration request must contain one JSON object"))
  ok decoded

module _ (lower : Text → Text) (equal_fold : Text → Text → Bool) (is_dns : Text → Bool)
    (json : RegistrationJson) {W C : Type 0} (factory : Option (ImportFactory W C)) where
  abbrev may_register :
      ImportFactory W C → Identity → Request → (verb : Text) → Result Refusal (Unit {0})
  may_register f identity request verb =
      or_refused
        (λ e. operation_refusal e (runes "caller is not allowed to register this resource"))
        (f.authorize_resource identity.cluster_id identity.token
          (resource_for_kind equal_fold request.kind) [] verb)

  -- Everything before the preflight.
  unfoldable pub admit :
      ImportCall → Result Refusal (ImportClient W × Request × List NormalizedItem)
  unfolding import_request_identity decode_registration check_registration operation_refusal
      resource_for_kind
  admit call = do
    identity ←
        or_refused (λ e. refusal 401 (runes "Unauthorized") e.message)
          (import_request_identity equal_fold call.headers)
    decoded ← decode_registration json call
    (request, items) ← or_refused (λ e. invalid e.message) (check_registration lower is_dns decoded)
    f ← present (refusal 503 (runes "Unavailable") (runes "registration is unavailable")) factory
    or_refused (λ e. operation_refusal e (runes "caller is not allowed to read this connection"))
        (f.authorize_resource identity.cluster_id identity.token (runes "connections")
          request.connection_ref (runes "get"))
    connection ←
        or_refused (λ e. operation_refusal e (runes "Databricks connection is unavailable"))
          (f.resolve_connection identity.cluster_id request.connection_ref)
    may_register f identity request (runes "get")
    may_register f identity request (runes "create")
    client ←
        or_refused
          (λ e. refusal 502 (runes "Unavailable") (runes "tenant resource client is unavailable"))
          (f.client_for identity.cluster_id identity.token)
    ok (client, request, items)

  unfoldable pub serve_registration :
      (is_already_exists : Failure → Bool) → ImportCall → W → W × Answer
  unfolding admit preflight register_items text_eq
  serve_registration is_already_exists call w = elim (admit call) [
    | err r ↦ (w, refused r)
    | ok (client, request, items) ↦
        let looked = preflight client request w in
        elim looked.1 [
          | err r ↦ (looked.0, refused r)
          | ok _ ↦
              let registered =
                register_items (resource_client request client) is_already_exists request items
                  looked.0 in
              (registered.0, answered registered.1)
        ]
  ]
