-- ===== src/Shared.antt =====
-- controller/shared/shared.go: what the reconcilers and the action executor share.
pub mod Laws
use provider_databricks.Prelude.{
  ℕ, ◌==◌, if◌then◌else◌, Bool, true, false, not, ◌&&◌, List, [], ◌∷◌, ◌++◌, Option, none, some,
  Text, runes, is_empty, text_eq, trim_space, Result, ok, err, ◌≡◌, ◌>>=◌, ◌>>◌, reject_if,
}
use provider_databricks.Failure.{Failure, Reason, plain, wrapped, is_not_found, is_forbidden}
use provider_databricks.Api.{
  Condition, ConditionStatus, condition_true, condition_false, condition_unknown, Connection,
  Warehouse, Table,
}

-- `SetStatusCondition` and `FindStatusCondition` of apimachinery's api/meta, which document that the
-- first adds or replaces the condition of its type and leaves the others.
pub record ConditionApi : Type 0 where
  pub set_status_condition : List Condition → Condition → List Condition
  pub find_status_condition : List Condition → Text → Option Condition
  pub find-set :
      (conditions : List Condition) (c : Condition) (type : Text)
      → find_status_condition (set_status_condition conditions c) type
        ≡ (if text_eq c.type type then some c else find_status_condition conditions type)

-- The reads of one request, `client.Client.Get`, and what `Status().Update` answers. A secret is its
-- `Data`.
pub record ClusterApi : Type 0 where
  pub get_connection : Text → Result Failure Connection
  pub get_warehouse : Text → Result Failure Warehouse
  pub get_table : Text → Result Failure Table
  pub get_secret : (namespace name : Text) → Result Failure (Text → Option Text)
  pub update_connection : Connection → Option Failure
  pub update_warehouse : Warehouse → Option Failure
  pub update_table : Table → Option Failure

-- In seconds.
abbrev pub dependency_retry_after : ℕ
dependency_retry_after = 15

abbrev pub validation_refresh_after : ℕ
validation_refresh_after = 300

abbrev pub default_credentials_namespace : Text
default_credentials_namespace = runes "default"

abbrev pub default_token_key : Text
default_token_key = runes "token"

abbrev pub is_true : ConditionStatus → Bool
is_true condition_true = true
is_true _ = false

abbrev or_default : Text → Text → Text
or_default t default = if is_empty t then default else t

module _ (kube : ConditionApi) where
  unfoldable pub set_condition :
      List Condition → Text → ConditionStatus → Reason → Text → ℕ → List Condition
  set_condition conditions type status reason message observed =
      kube.set_status_condition conditions (record {
        type = type;
        status = status;
        reason = reason;
        message = message;
        observed_generation = observed;
      })

  unfoldable pub current_condition_true :
      List Condition → (observed_generation generation : ℕ) → Text → Bool
  current_condition_true conditions observed_generation generation type =
      if not (observed_generation == generation)
      then false
      else elim (kube.find_status_condition conditions type) [
        | none ↦ false
        | some c ↦ is_true c.status && c.observed_generation == generation
      ]

-- `quote` is the verb `%q`.
module _ (quote : Text → Text) where
  -- The errors of a `Get`, for the resource `kind`.
  unfoldable pub get_failure : Text → Text → Failure → Failure
  get_failure kind name e =
      if is_not_found e
      then plain (kind ++ (runes " " ++ (quote name ++ runes " not found")))
      else if is_forbidden e
      then plain (
          kind
          ++ (runes " "
              ++ (quote name ++ runes " is not readable; check the provider APIBinding claims")))
      else wrapped (runes "get " ++ (kind ++ (runes " " ++ (quote name ++ runes ": ")))) e

  abbrev fetched {ℓ} : {A : Type ℓ} → Text → Text → Result Failure A → Result Failure A
  fetched kind name (ok a) = ok a
  fetched kind name (err e) = err (get_failure kind name e)

  unfoldable pub resolve_connection : ClusterApi → Text → Result Failure Connection
  unfolding trim_space get_failure
  resolve_connection api name = do
    let trimmed = trim_space name
    reject_if (is_empty trimmed) (plain (runes "connectionRef is required"))
    fetched (runes "connection") trimmed (api.get_connection trimmed)

  unfoldable pub resolve_warehouse : ClusterApi → Text → Result Failure Warehouse
  unfolding trim_space get_failure
  resolve_warehouse api name = do
    let trimmed = trim_space name
    reject_if (is_empty trimmed) (plain (runes "warehouseRef is required"))
    fetched (runes "warehouse") trimmed (api.get_warehouse trimmed)

  unfoldable pub resolve_table : ClusterApi → Text → Result Failure Table
  unfolding trim_space get_failure
  resolve_table api name = do
    let trimmed = trim_space name
    reject_if (is_empty trimmed) (plain (runes "tableRef is required"))
    fetched (runes "tableRef") trimmed (api.get_table trimmed)

  secret_failure : (namespace name : Text) → Failure → Failure
  secret_failure namespace name e =
      let secret = runes "credential secret " ++ (namespace ++ (runes "/" ++ name)) in
      if is_not_found e
      then plain (secret ++ runes " not found")
      else if is_forbidden e
      then plain (secret ++ runes " is not readable; check the provider APIBinding secrets claim")
      else wrapped (runes "get " ++ (secret ++ runes ": ")) e

  missing_key : (namespace name key : Text) → Failure
  missing_key namespace name key = plain (
      runes "credential secret "
      ++ (namespace ++ (runes "/" ++ (name ++ (runes " missing non-empty key " ++ quote key)))))

  abbrev secret_read :
      (namespace name key : Text) → Result Failure (Text → Option Text) → Result Failure Text
  secret_read namespace name key (err e) = err (secret_failure namespace name e)
  secret_read namespace name key (ok data') = elim (data' key) [
    | none ↦ err (missing_key namespace name key)
    | some token ↦ if is_empty token then err (missing_key namespace name key) else ok token
  ]

  unfoldable pub resolve_bearer_token : ClusterApi → Connection → Result Failure Text
  unfolding secret_failure missing_key
  resolve_bearer_token api conn =
      let namespace = or_default conn.spec.secret_ref.namespace default_credentials_namespace in
      let key = or_default conn.spec.secret_ref.key default_token_key in
      secret_read namespace conn.spec.secret_ref.name key
        (api.get_secret namespace conn.spec.secret_ref.name)
