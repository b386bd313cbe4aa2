-- ===== src/Backend/Urls.antt =====
-- The addresses of backend/: `workspaceURL`, `schemeAllowed`, `isLoopbackHost` and the endpoints of
-- backend/validation.go, and `statementExecutionURL` of backend/backend.go.
pub mod Safety
use provider_databricks.Prelude.{
  ◌==◌, if◌then◌else◌, ℕ, Bool, not, ◌&&◌, ◌||◌, List, [], ◌∷◌, ◌++◌, Text, runes, is_empty,
  text_eq, trim_space, join, Result, ok, err, ◌>>=◌, ◌>>◌, reject_if,
}
use provider_databricks.Failure.{Failure, plain, wrapped}
use provider_databricks.Hosts.{trim_right_of, allowed_workspace_host}
use provider_databricks.Query.Identifier.{validate_identifier}
use provider_databricks.Query.Sql.{TableRef}

-- What `url.Parse` finds, with `Hostname()` and `Port()`.
pub record ParsedUrl : Type 0 where
  pub scheme : Text
  pub has_user : Bool
  pub host : Text
  pub hostname : Text
  pub port : Text
  pub path : Text
  pub raw_query : Text
  pub fragment : Text

-- A URL without user and fragment.
pub record Url : Type 0 where
  pub scheme : Text
  pub host : Text
  pub path : Text
  pub raw_query : Text

-- What the code calls of net, net/url and strings.
pub record NetApi : Type 0 where
  pub lower : Text → Text
  pub quote : Text → Text
  pub environment : Text
  pub parse : Text → Result Failure ParsedUrl
  pub is_ip : Text → Bool
  pub is_loopback_ip : Text → Bool
  pub join_host_port : (host port : Text) → Text
  pub render : Url → Text
  pub path_escape : Text → Text
  pub encode_query : List (Text × Text) → Text

-- `StatementClient`, without its HTTP client.
pub record StatementClient : Type 0 where
  pub wait_timeout : Text
  pub allowed_workspace_host_suffixes : List Text
  pub allow_insecure_workspace_host : Bool

abbrev pub is_slash : ℕ → Bool
is_slash c = c == b'/'

-- `if err != nil { return fmt.Errorf("<prefix>%w", err) }`
abbrev pub or_wrapped {ℓ} : {A : Type ℓ} → Text → Result Failure A → Result Failure A
or_wrapped prefix (ok a) = ok a
or_wrapped prefix (err e) = err (wrapped prefix e)

module _ (net : NetApi) where
  unfoldable pub is_loopback_host : Text → Bool
  unfolding text_eq
  is_loopback_host hostname = text_eq hostname (runes "localhost") || net.is_loopback_ip hostname

  unfoldable pub scheme_allowed : StatementClient → (scheme hostname : Text) → Bool
  unfolding is_loopback_host text_eq trim_space
  scheme_allowed c scheme hostname =
      let lowered = net.lower (trim_space scheme) in
      text_eq lowered (runes "https")
      || (c.allow_insecure_workspace_host && text_eq lowered (runes "http"))
        && is_loopback_host hostname

  abbrev host_failure : Text → Text → Failure
  host_failure host problem = plain (runes "databricks host " ++ (net.quote host ++ problem))

  abbrev pub host_of : ParsedUrl → Text
  host_of u = net.lower (trim_space u.hostname)

  abbrev pub loopback_allowed : StatementClient → ParsedUrl → Bool
  loopback_allowed c u = c.allow_insecure_workspace_host && is_loopback_host (host_of u)

  abbrev pub policy_allows : StatementClient → ParsedUrl → Bool
  policy_allows c u =
      allowed_workspace_host net.lower net.is_ip net.environment (host_of u)
        c.allowed_workspace_host_suffixes

  -- The URL that is left of the host.
  abbrev pub root_of : ParsedUrl → Url
  root_of u = record {
    scheme = net.lower u.scheme;
    host = if is_empty u.port then host_of u else net.join_host_port (host_of u) u.port;
    path = [];
    raw_query = [];
  }

  unfoldable pub workspace_url : StatementClient → Text → Result Failure Url
  unfolding scheme_allowed allowed_workspace_host trim_right_of trim_space text_eq
  workspace_url c host = do
    u ←
        or_wrapped (runes "parse databricks host " ++ (net.quote host ++ runes ": "))
          (net.parse (trim_space (trim_right_of is_slash host)))
    reject_if (is_empty u.scheme || is_empty u.host)
        (host_failure host (runes " must include scheme and host"))
    reject_if (u.has_user || (not (is_empty u.raw_query) || not (is_empty u.fragment)))
        (host_failure host (runes " must not include user info, query, or fragment"))
    reject_if (not (is_empty u.path) && not (text_eq u.path (runes "/")))
        (host_failure host (runes " must be a workspace root URL"))
    reject_if (is_empty (host_of u)) (host_failure host (runes " must include host name"))
    reject_if (not (scheme_allowed c u.scheme (host_of u)))
        (host_failure host (runes " must use https"))
    reject_if (not (loopback_allowed c u) && not (policy_allows c u))
        (host_failure host (runes ": not an allowed Databricks workspace host"))
    reject_if
        ((not (is_empty u.port) && not (text_eq u.port (runes "443")))
          && not (loopback_allowed c u))
        (host_failure host (runes " must use the default https port"))
    ok (root_of u)

  abbrev pub at_path : Text → Url → Text
  at_path path u = net.render (record u { path = trim_right_of is_slash u.path ++ path })

  unfoldable pub statement_execution_url : StatementClient → Text → Result Failure Text
  unfolding workspace_url
  statement_execution_url c host = do
    u ← workspace_url c host
    ok (at_path (runes "/api/2.0/sql/statements") u)

  -- The endpoint and, after it, the older one.
  unfoldable pub current_user_endpoints : StatementClient → Text → Result Failure (List Text)
  unfolding workspace_url
  current_user_endpoints c host = do
    u ← workspace_url c host
    ok (
        at_path (runes "/api/2.0/current-user/me") u
        ∷ at_path (runes "/api/2.0/preview/scim/v2/Me") u
        ∷ [])

  unfoldable pub warehouse_endpoint :
      StatementClient → (host warehouse_id : Text) → Result Failure Text
  unfolding workspace_url trim_space
  warehouse_endpoint c host warehouse_id = do
    u ← workspace_url c host
    ok (at_path (runes "/api/2.0/sql/warehouses/" ++ net.path_escape (trim_space warehouse_id)) u)

  abbrev check_part : Text → Text → Result Failure (Unit {0})
  check_part label value =
      reject_if (not (validate_identifier value))
        (plain (label ++ (runes " " ++ (net.quote value ++ runes ": invalid identifier"))))

  unfoldable pub validate_table_parts : TableRef → Result Failure (Unit {0})
  unfolding validate_identifier
  validate_table_parts ref = do
    check_part (runes "catalog") ref.catalog
    check_part (runes "schema") ref.schema
    check_part (runes "table") ref.table
