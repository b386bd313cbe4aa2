-- ===== src/Tests/Clients.antt =====
-- Tests of tenant/client.go: two tokens, two hosts, clients that are their own configurations.
use provider_databricks.Prelude.{
  ℕ, ◌-◌, ◌<◌, ◌≡◌, refl, false, leb, if◌then◌else◌, [], ◌∷◌, ◌++◌, none, some, arith, Text, runes,
  trim_space, Result, ok, length,
}
use provider_databricks.Prelude.Maps.{lookup}
use provider_databricks.Failure.{Failure}
use provider_databricks.Backend.Urls.{ParsedUrl}
use provider_databricks.Actions.Paths.{path_escape}
use provider_databricks.Tenant.Clients.{
  TextApi, TlsConfig, RestConfig, BaseConfig, ClientFactory, new_client_factory, set_base_config,
  checked_host, config_for, client_for, authorization_for, cache_key, ttl_value, install_config,
  clear_caches,
}
use provider_databricks.Tenant.Clients.Caching.{Cache, empty_cache, store, from_cache}
use provider_databricks.Tenant.Clients.Caching.Kept.{IsSound}
use provider_databricks.Tenant.Clients.Caching.Stores.{Stores, store-Stores, from_cache-store}
use provider_databricks.Tenant.Clients.Ownership.Sequences.{
  Reach, start, next, configure, IsCallers, client_for-IsCallers, authorization_for-IsCallers,
}
use provider_databricks.Tenant.Clients.Bounds.{AreSound, client_for-AreSound}
use provider_databricks.Tenant.Clients.Race
use provider_databricks.Tenant.Clients.Race.{World, Change, stale_client}

abbrev at_host : Text → ParsedUrl
at_host host = record {
  scheme = runes "https";
  has_user = false;
  host = host;
  hostname = host;
  port = [];
  path = runes "/clusters/root";
  raw_query = [];
  fragment = [];
}

abbrev host_before : Text → Text
host_before host = host

abbrev api : TextApi
api = record {
  parse = λ host. ok (at_host host);
  render = λ u. u.host;
  path_escape = path_escape;
  quote = λ t. t;
  sha256 = λ t. length t ∷ 0 ∷ 0 ∷ 0 ∷ 0 ∷ 0 ∷ 0 ∷ 0 ∷ [];
}

abbrev tls : TlsConfig
tls = record {
  insecure = false;
  server_name = [];
  cert_file = runes "tls.crt";
  key_file = runes "tls.key";
  ca_file = [];
  cert_contents = [];
  key_contents = 1 ∷ [];
  ca_contents = [];
}

abbrev old_base : BaseConfig
old_base = record { host = runes "old"; tls = tls }

abbrev new_base : BaseConfig
new_base = record { host = runes "new"; tls = tls }

abbrev build : RestConfig → Result Failure RestConfig
build config = ok config

abbrev Factory : Type 0
Factory = ClientFactory ℕ RestConfig RestConfig

abbrev configured_factory : Factory
configured_factory = clear_caches api (install_config api (runes "old") tls new_client_factory)

abbrev tenant : Text
tenant = runes "tenant"

abbrev caller : Text
caller = runes "caller"

-- What a configuration builds for the caller.
abbrev config_on : Text → RestConfig
config_on host = record {
  host = host ++ runes "/clusters/tenant";
  bearer_token = caller;
  tls = record tls { cert_file = []; key_file = []; key_contents = [] };
}

configured_once : Reach api build build configured_factory
unfolding set_base_config new_client_factory path_escape
configured_once = next start (configure (some old_base) refl)

asked_once :
    (client_for api build 5 6 tenant caller configured_factory).1 ≡ ok (config_on (runes "old"))
unfolding client_for new_client_factory clear_caches install_config path_escape
asked_once = refl

client_for-IsCallers_example :
    (config : RestConfig) × IsCallers api build build tenant caller configured_factory config
    × (build config ≡ ok (config_on (runes "old")))
client_for-IsCallers_example =
    client_for-IsCallers api build build (λ token. omega arith) 5 6 tenant caller configured_factory
      (config_on (runes "old")) configured_once asked_once

asked_authorization :
    (authorization_for api build 5 6 tenant caller configured_factory).1
    ≡ ok (config_on (runes "old"))
unfolding authorization_for new_client_factory clear_caches install_config path_escape
asked_authorization = refl

authorization_for-IsCallers_example :
    (config : RestConfig) × IsCallers api build build tenant caller configured_factory config
    × (build config ≡ ok (config_on (runes "old")))
authorization_for-IsCallers_example =
    authorization_for-IsCallers api build build (λ token. omega arith) 5 6 tenant caller
      configured_factory (config_on (runes "old")) configured_once asked_authorization

empty-IsSound : {C : Type 0} (capacity clock : ℕ) → IsSound {C = C} capacity clock empty_cache
empty-IsSound capacity clock = record {
  kept = record { same_keys = refl; named = tt; stamped = tt; used = tt };
  within = omega arith;
}

configured-AreSound : AreSound api configured_factory
unfolding clear_caches install_config new_client_factory
configured-AreSound = record {
  dynamic_sound = empty-IsSound 128 0;
  authorization_sound = empty-IsSound 128 0;
}

client_for-AreSound_example :
    AreSound api (client_for api build 5 6 tenant caller configured_factory).0
unfolding clear_caches install_config new_client_factory
client_for-AreSound_example =
    client_for-AreSound api build 5 6 tenant caller configured_factory configured-AreSound
      (omega arith) (omega arith) (omega arith)

-- A cache of one client, that is full.
abbrev full_cache : Cache ℕ
full_cache = record {
  hot = (runes "a", 7) ∷ [];
  meta = (runes "a", record { created_at = 3; last_used = 1 }) ∷ [];
}

full-IsSound : IsSound 1 1 full_cache
full-IsSound = record {
  kept = record {
    same_keys = refl;
    named = (refl, tt);
    stamped = (omega arith, tt);
    used = (omega arith, tt);
  };
  within = omega arith;
}

-- The second client takes the place of the first.
replaced : (store 1 5 (runes "b") 8 1 full_cache).0.hot ≡ (runes "b", 8) ∷ []
unfolding store
replaced = refl

store-Stores_example : Stores 1 (runes "b") 8 full_cache (store 1 5 (runes "b") 8 1 full_cache)
store-Stores_example =
    store-Stores 1 5 1 (runes "b") 8 full_cache full-IsSound refl (omega arith) (omega arith)
      (omega arith)

absent : lookup (runes "b") full_cache.hot ≡ none
unfolding lookup
absent = refl

from_cache-store_example :
    (from_cache 10 14
      (runes "b")
      (store 1 5 (runes "b") 8 1 full_cache).1
      (store 1 5 (runes "b") 8 1 full_cache).0).2
    ≡ (if leb 10 (14 - 5) then none else some 8)
from_cache-store_example =
    from_cache-store 1 5 1 (runes "b") 8 full_cache full-IsSound refl (omega arith) (omega arith)
      (omega arith) 10 14 absent

configured_old :
    config_for api configured_factory (trim_space tenant) caller ≡ ok (config_on (runes "old"))
unfolding config_for clear_caches install_config new_client_factory path_escape
configured_old = refl

new_checked : checked_host api (some new_base) ≡ ok (runes "new", tls)
unfolding checked_host
new_checked = refl

no_client : lookup (cache_key api (trim_space tenant) caller) configured_factory.dynamic.hot ≡ none
unfolding lookup clear_caches
no_client = refl

young : 9 - 6 < ttl_value api configured_factory
unfolding clear_caches install_config new_client_factory
young = omega arith

stale_client_example :
    (w : World ℕ RestConfig RestConfig) × Race.Reach api build tenant caller
      (some new_base)
      (Race.start configured_factory)
      w
    × (w.change ≡ Change.cleared)
    × (w.factory.base_host ≡ runes "new")
    × ((client_for api build 9 9 tenant caller w.factory).1 ≡ ok (config_on (runes "old")))
stale_client_example =
    stale_client api build tenant caller new_base configured_factory (config_on (runes "old"))
      (config_on (runes "old")) (runes "new") tls 5 6 configured_old no_client refl new_checked
      (omega arith) 9 9 young
