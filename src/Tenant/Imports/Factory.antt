-- ===== src/Tenant/Imports/Factory.antt =====
-- How `ClientFactory` fills the `ImportFactory` of tenant/import.go: `ResolveConnection` and
-- `AuthorizeResource`.
use provider_databricks.Prelude.{
  not, [], ◌∷◌, Option, none, some, Text, runes, text_eq, trim_space, Result, ok, err, ◌>>=◌, ◌>>◌,
  reject_if, >>=-eq-ok, reject_if-eq-ok, ok-injective, ok≢err, true_of_not, text_eq_iff, ◌≡◌, refl,
  sym, subst,
}
use provider_databricks.Failure.{Failure, Link, ApiReason, plain}
use provider_databricks.Api.{Connection, connection_auth_pat}
use provider_databricks.Shared.{ClusterApi, resolve_connection, resolve_bearer_token}
use provider_databricks.Tenant.Clients.{TextApi, ClientFactory, authority_client}
use provider_databricks.Tenant.Authorize.{ResourceAttributes, ReviewStatus, group_name, api_version}

-- `importapi.Connection`
pub record ImportConnection : Type 0 where
  pub host : Text
  pub auth_type : Text
  pub token : Text

abbrev unsupported_auth_type : Failure
unsupported_auth_type = record {
  message = runes "connection authType is unsupported";
  chain =
      Link.import_error 400 (runes "UnsupportedAuthType")
        (runes "connection authType is unsupported")
      ∷ [];
}

abbrev or_failure : {A : Type 0} → Failure → Result Failure A → Result Failure A
or_failure e (ok a) = ok a
or_failure e (err _) = err e

-- `missing_message` and `forbidden_message` are the texts of `apierrors.NewNotFound` and
-- `apierrors.NewForbidden`.
module _ (api : TextApi) (missing_message forbidden_message : Text → Text) where
  abbrev missing_connection : Text → Failure
  missing_connection name = record {
    message = missing_message name;
    chain = Link.api_status ApiReason.not_found ∷ [];
  }

  abbrev not_authorized : Text → Failure
  not_authorized name = record {
    message = forbidden_message name;
    chain = Link.api_status ApiReason.forbidden ∷ [];
  }

  module _ {D A : Type 0} where
    unfoldable pub resolve_import_connection :
        ClientFactory ClusterApi D A → (cluster_id name : Text) → Result Failure ImportConnection
    unfolding authority_client resolve_connection resolve_bearer_token trim_space text_eq
    resolve_import_connection f cluster_id name = do
      client ← authority_client api f cluster_id
      conn ←
          or_failure (missing_connection name)
            (resolve_connection api.quote client (trim_space name))
      reject_if (not (text_eq conn.spec.auth_type connection_auth_pat)) unsupported_auth_type
      token ←
          or_failure (plain (runes "connection credential is unavailable"))
            (resolve_bearer_token api.quote client conn)
      ok (record { host = conn.spec.host; auth_type = conn.spec.auth_type; token = token })

  abbrev attributes : (resource name verb : Text) → ResourceAttributes
  attributes resource name verb = record {
    group = group_name;
    version = api_version;
    resource = resource;
    subresource = [];
    name = name;
    verb = verb;
  }

  -- A review that is nil is `none`.
  unfoldable pub authorize_resource :
      (authorization_for : (cluster_id token : Text)
        → Result Failure (ResourceAttributes → Result Failure (Option ReviewStatus)))
      → (cluster_id token resource name verb : Text) → Result Failure (Unit {0})
  authorize_resource authorization_for cluster_id token resource name verb = do
    create_review ← authorization_for cluster_id token
    review ←
        or_failure (plain (runes "tenant authorization request failed"))
          (create_review (attributes resource name verb))
    elim review [
      | none ↦ err (not_authorized name)
      | some status ↦ reject_if (not status.allowed) (not_authorized name)
    ]

  or_failure-eq-ok :
      {A : Type 0} (e : Failure) (r : Result Failure A) {a : A} → or_failure e r ≡ ok a → r ≡ ok a
  or_failure-eq-ok e (ok a) h = cc
  or_failure-eq-ok e (err d) h = absurd (ok≢err (sym h))

  -- A connection for an import: the authority has a client of the cluster, which finds a connection of
  -- the name with a personal access token, and its token.
  pub record IsImportable {D A : Type 0} (f : ClientFactory ClusterApi D A) (cluster_id name : Text)
      (found : ImportConnection) : Type 0 where
    pub client : ClusterApi
    pub conn : Connection
    pub served : authority_client api f cluster_id ≡ ok client
    pub resolves : resolve_connection api.quote client (trim_space name) ≡ ok conn
    pub is_pat : conn.spec.auth_type ≡ connection_auth_pat
    pub same_host : found.host ≡ conn.spec.host
    pub has_token : resolve_bearer_token api.quote client conn ≡ ok found.token

  -- Where ResolveConnection answers, the provider's authority has a client of the cluster, through which
  -- the name resolves to a connection whose authType is PAT, and the answer has its host and the
  -- token to which its secret resolves.
  pub resolve_import_connection-IsImportable :
      {D A : Type 0} (f : ClientFactory ClusterApi D A) (cluster_id name : Text)
      (found : ImportConnection)
      → resolve_import_connection f cluster_id name ≡ ok found
      → IsImportable f cluster_id name found
  unfolding resolve_import_connection
  resolve_import_connection-IsImportable f cluster_id name found h =
      let (client, served, h1) = >>=-eq-ok (authority_client api f cluster_id) _ h in
      let (conn, resolves, h2) = >>=-eq-ok _ _ h1 in
      let (supported, h3) =
        reject_if-eq-ok (not (text_eq conn.spec.auth_type connection_auth_pat)) _ _ h2 in
      let (token, has_token, h4) = >>=-eq-ok _ _ h3 in
      subst (IsImportable f cluster_id name) (ok-injective h4) (record {
        client = client;
        conn = conn;
        served = served;
        resolves = or_failure-eq-ok _ _ resolves;
        is_pat = (text_eq_iff _ _).0 (true_of_not supported);
        same_host = refl;
        has_token = or_failure-eq-ok _ _ has_token;
      })
