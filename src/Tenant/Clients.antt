-- ===== src/Tenant/Clients.antt =====
-- tenant/client.go: ClientFactory, which builds and keeps the clients that act as the caller of a
-- request in the logical cluster of its tenant.
pub mod Caching
pub mod Keys
pub mod Calls
pub mod Ownership
pub mod Race
pub mod Bounds
use provider_databricks.Prelude.{
  ℕ, ◌*◌, ◌^◌, ◌/◌, ◌%◌, ◌+◌, ltb, ◌==◌, if◌then◌else◌, Bool, true, false, not, ◌||◌, List, [], ◌∷◌,
  ◌++◌, Option, none, some, Text, runes, is_empty, take, text_eq, trim_space, has_prefix, Result,
  ok, err, ◌>>=◌, ◌>>◌, reject_if, ℤ, pos, negsuc,
}
use provider_databricks.Failure.{Failure, plain, wrapped}
use provider_databricks.Hosts.{trim_right_of}
use provider_databricks.Backend.Urls.{ParsedUrl, is_slash}
use provider_databricks.Tenant.Clients.Caching.{Cache, empty_cache, from_cache, store}

-- `rest.TLSClientConfig`
pub record TlsConfig : Type 0 where
  pub insecure : Bool
  pub server_name : Text
  pub cert_file : Text
  pub key_file : Text
  pub ca_file : Text
  pub cert_contents : List ℕ
  pub key_contents : List ℕ
  pub ca_contents : List ℕ

-- What SetBaseConfig reads of a `rest.Config`.
pub record BaseConfig : Type 0 where
  pub host : Text
  pub tls : TlsConfig

-- The `rest.Config` of a caller's client.
pub record RestConfig : Type 0 where
  pub host : Text
  pub bearer_token : Text
  pub tls : TlsConfig

-- What the code calls of net/url, fmt, strings and crypto/sha256; `render` is `u.String()`.
pub record TextApi : Type 0 where
  pub parse : Text → Result Failure ParsedUrl
  pub render : ParsedUrl → Text
  pub path_escape : Text → Text
  pub quote : Text → Text
  pub sha256 : Text → List ℕ

-- `K` is the type of authority clients, `D` of dynamic clients, `A` of authorization clients. Times are
-- nanoseconds.
pub record ClientFactory (K D A : Type 0) : Type 0 where
  pub base_host : Text
  pub base_tls : TlsConfig
  pub configured : Bool
  pub authority : Option (Text → Result Failure (Option K))
  pub dynamic : Cache D
  pub authorization : Cache A
  pub cache_capacity : ℤ
  pub cache_ttl : ℤ
  pub cache_clock : ℕ

abbrev pub default_client_cache_capacity : ℕ
default_client_cache_capacity = 128

abbrev pub default_client_cache_ttl : ℕ
default_client_cache_ttl = 600 * 10 ^ 9

abbrev no_tls : TlsConfig
no_tls = record {
  insecure = false;
  server_name = [];
  cert_file = [];
  key_file = [];
  ca_file = [];
  cert_contents = [];
  key_contents = [];
  ca_contents = [];
}

unfoldable pub new_client_factory : {K D A : Type 0} → ClientFactory K D A
new_client_factory = record {
  base_host = [];
  base_tls = no_tls;
  configured = false;
  authority = none;
  dynamic = empty_cache;
  authorization = empty_cache;
  cache_capacity = pos default_client_cache_capacity;
  cache_ttl = pos default_client_cache_ttl;
  cache_clock = 0;
}

-- `value` if it is above 0.
abbrev positive_or : ℕ → ℤ → ℕ
positive_or default (pos value) = if ltb 0 value then value else default
positive_or default (negsuc _) = default

-- The text before the first `part`, `s[:strings.Index(s, part)]`.
unfoldable pub before : Text → Text → Option Text
unfolding has_prefix
before part [] = if is_empty part then some [] else none
before part (c ∷ s) =
    let rest = before part s in
    if has_prefix (c ∷ s) part
    then some []
    else elim rest [ none ↦ none | some start ↦ some (c ∷ start) ]

abbrev hex_digit : ℕ → ℕ
hex_digit d = if ltb d 10 then b'0' + d else b'a' + d % 10

-- `hex.EncodeToString`
unfoldable pub hex : List ℕ → Text
hex [] = []
hex (b ∷ bytes) = hex_digit (b / 16 % 16) ∷ hex_digit (b % 16) ∷ hex bytes

-- A client certificate and its key are left out.
abbrev pub without_credentials : TlsConfig → TlsConfig
without_credentials tls = record tls {
  cert_contents = [];
  cert_file = [];
  key_contents = [];
  key_file = [];
}

module _ (api : TextApi) where
  unfoldable pub hash_token : Text → Text
  unfolding hex
  hash_token token = hex (take 8 (api.sha256 token))

  abbrev pub cache_key : (cluster_id token : Text) → Text
  cache_key cluster_id token = cluster_id ++ b':' ∷ hash_token token

  unfoldable pub strip_cluster_suffix : Text → Result Failure Text
  unfolding trim_right_of before
  strip_cluster_suffix host = elim (api.parse host) [
    | err e ↦
        err (wrapped (runes "parse base kubeconfig host " ++ (api.quote host ++ runes ": ")) e)
    | ok u ↦ elim (before (runes "/clusters/") u.path) [
      | none ↦ ok (trim_right_of is_slash host)
      | some path ↦ ok (trim_right_of is_slash (api.render (record u { path = path })))
    ]
  ]

  abbrev base_host_of : Text → Text
  base_host_of host = elim (strip_cluster_suffix host) [
    | ok stripped ↦ stripped
    | err _ ↦ trim_right_of is_slash host
  ]

  -- `clusterID == "" || clusterID == "." || clusterID == ".." || url.PathEscape(clusterID) != clusterID`
  abbrev pub invalid_cluster : Text → Bool
  invalid_cluster cluster_id =
      is_empty cluster_id
      || (text_eq cluster_id (runes ".")
          || (text_eq cluster_id (runes "..")
              || not (text_eq (api.path_escape cluster_id) cluster_id)))

  -- The host to install.
  unfoldable pub checked_host : Option BaseConfig → Result Failure (Text × TlsConfig)
  unfolding strip_cluster_suffix trim_space trim_right_of
  checked_host none = err (plain (runes "provider kubeconfig is unavailable"))
  checked_host (some base) =
      let host = base_host_of base.host in
      if is_empty (trim_space host)
      then err (plain (runes "provider kubeconfig host is empty"))
      else ok (host, base.tls)

  abbrev required : {K : Type 0} → Text → Option K → Result Failure K
  required cluster_id (some client) = ok client
  required cluster_id none = err (
      plain
        (runes "provider authority cluster " ++ (api.quote cluster_id ++ runes " has no client")))

  abbrev resolved : {K : Type 0} → Text → Result Failure (Option K) → Result Failure (Option K)
  resolved cluster_id (ok client) = ok client
  resolved cluster_id (err e) =
      err (wrapped (runes "provider authority cluster " ++ (api.quote cluster_id ++ runes ": ")) e)

  abbrev pub build_failure : Text → Text → Failure → Failure
  build_failure kind cluster_id e =
      wrapped (kind ++ (runes " client for cluster " ++ (api.quote cluster_id ++ runes ": "))) e

  module _ {K D A : Type 0} where
    -- The first half of SetBaseConfig, under the lock of the configuration.
    unfoldable pub install_config :
        (host : Text) → TlsConfig → ClientFactory K D A → ClientFactory K D A
    install_config host tls f = record f {
      base_host = host;
      base_tls = without_credentials tls;
      configured = true;
    }

    -- The second half, under the lock of the caches.
    unfoldable pub clear_caches : ClientFactory K D A → ClientFactory K D A
    clear_caches f = record f { dynamic = empty_cache; authorization = empty_cache }

    -- An error leaves the factory as it is.
    unfoldable pub set_base_config :
        Option BaseConfig → ClientFactory K D A → Result Failure (ClientFactory K D A)
    unfolding checked_host install_config clear_caches
    set_base_config base f = do
      (host, tls) ← checked_host base
      ok (clear_caches (install_config host tls f))

    unfoldable pub set_authority :
        Option (Text → Result Failure (Option K)) → ClientFactory K D A → ClientFactory K D A
    set_authority authority f = record f { authority = authority }

    unfoldable pub ready : ClientFactory K D A → Bool
    ready f = elim f.configured [
      | false ↦ false
      | true ↦ elim f.authority [ none ↦ false | some _ ↦ true ]
    ]

    abbrev pub ttl_value : ClientFactory K D A → ℕ
    ttl_value f = positive_or default_client_cache_ttl f.cache_ttl

    abbrev pub capacity_value : ClientFactory K D A → ℕ
    capacity_value f = positive_or default_client_cache_capacity f.cache_capacity

    unfoldable pub authority_client : ClientFactory K D A → Text → Result Failure K
    unfolding trim_space text_eq
    authority_client f cluster_id = elim f.authority [
      | none ↦ err (plain (runes "provider authority client unavailable"))
      | some cluster_client ↦ do
        let id = trim_space cluster_id
        reject_if (invalid_cluster id) (plain (runes "invalid tenant logical-cluster ID"))
        client ← resolved id (cluster_client id)
        required id client
    ]

    unfoldable pub config_for :
        ClientFactory K D A → (cluster_id token : Text) → Result Failure RestConfig
    unfolding trim_space text_eq
    config_for f cluster_id token = do
      let id = trim_space cluster_id
      reject_if (invalid_cluster id) (plain (runes "invalid tenant logical-cluster ID"))
      reject_if (is_empty (trim_space token))
          (plain (runes "no bearer token on request; cannot act on the tenant's behalf"))
      reject_if (not f.configured)
          (plain (runes "tenant client unavailable (provider kubeconfig not set)"))
      ok (record {
        host = f.base_host ++ (runes "/clusters/" ++ id);
        bearer_token = token;
        tls = f.base_tls;
      })

    unfoldable pub dynamic_from_cache :
        (now : ℕ) → Text → ClientFactory K D A → ClientFactory K D A × Option D
    unfolding from_cache
    dynamic_from_cache now key f =
        let found = from_cache (ttl_value f) now key f.cache_clock f.dynamic in
        (record f { dynamic = found.0; cache_clock = found.1 }, found.2)

    unfoldable pub store_dynamic :
        (now : ℕ) → Text → D → ClientFactory K D A → ClientFactory K D A × D
    unfolding store
    store_dynamic now key client f =
        let stored = store (capacity_value f) now key client f.cache_clock f.dynamic in
        (record f { dynamic = stored.0; cache_clock = stored.1 }, stored.2)

    unfoldable pub auth_from_cache :
        (now : ℕ) → Text → ClientFactory K D A → ClientFactory K D A × Option A
    unfolding from_cache
    auth_from_cache now key f =
        let found = from_cache (ttl_value f) now key f.cache_clock f.authorization in
        (record f { authorization = found.0; cache_clock = found.1 }, found.2)

    unfoldable pub store_auth : (now : ℕ) → Text → A → ClientFactory K D A → ClientFactory K D A × A
    unfolding store
    store_auth now key client f =
        let stored = store (capacity_value f) now key client f.cache_clock f.authorization in
        (record f { authorization = stored.0; cache_clock = stored.1 }, stored.2)

    -- `new_for_config` is `dynamic.NewForConfig`; `now` is the time of the lookup, `later` of the store.
    unfoldable pub client_for :
        (new_for_config : RestConfig → Result Failure D)
        → (now later : ℕ) → (cluster_id token : Text) → ClientFactory K D A
        → ClientFactory K D A × Result Failure D
    unfolding config_for dynamic_from_cache store_dynamic trim_space hash_token
    client_for new_for_config now later cluster_id token f =
        let id = trim_space cluster_id in
        elim (config_for f id token) [
          | err e ↦ (f, err e)
          | ok config ↦
              let (f', hit) = dynamic_from_cache now (cache_key id token) f in
              elim hit [
                | some client ↦ (f', ok client)
                | none ↦ elim (new_for_config config) [
                  | err e ↦ (f', err (build_failure (runes "dynamic") id e))
                  | ok client ↦
                      let (f'', kept) = store_dynamic later (cache_key id token) client f' in
                      (f'', ok kept)
                ]
              ]
        ]

    -- `new_for_config` is `authorizationv1client.NewForConfig`.
    unfoldable pub authorization_for :
        (new_for_config : RestConfig → Result Failure A)
        → (now later : ℕ) → (cluster_id token : Text) → ClientFactory K D A
        → ClientFactory K D A × Result Failure A
    unfolding config_for auth_from_cache store_auth trim_space hash_token
    authorization_for new_for_config now later cluster_id token f =
        let id = trim_space cluster_id in
        elim (config_for f id token) [
          | err e ↦ (f, err e)
          | ok config ↦
              let (f', hit) = auth_from_cache now (cache_key id token) f in
              elim hit [
                | some client ↦ (f', ok client)
                | none ↦ elim (new_for_config config) [
                  | err e ↦ (f', err (build_failure (runes "authorization") id e))
                  | ok client ↦
                      let (f'', kept) = store_auth later (cache_key id token) client f' in
                      (f'', ok kept)
                ]
              ]
        ]
