-- ===== src/Tenant/Clients/Calls.antt =====
-- The ways through `For` and `AuthorizationFor` of tenant/client.go.
use provider_databricks.Prelude.{
  ℕ, ◌≡◌, refl, Option, none, some, Text, runes, trim_space, Result, ok, err,
}
use provider_databricks.Failure.{Failure}
use provider_databricks.Tenant.Clients.{
  TextApi, RestConfig, ClientFactory, cache_key, config_for, build_failure, dynamic_from_cache,
  store_dynamic, auth_from_cache, store_auth, client_for, authorization_for,
}

-- The ways through `client_for`.
module _ (api : TextApi) {K D A : Type 0} (new_for_config : RestConfig → Result Failure D)
    (now later : ℕ) (cluster_id token : Text) (f : ClientFactory K D A) where
  abbrev pub key : Text
  key = cache_key api (trim_space cluster_id) token

  abbrev looked : ClientFactory K D A × Option D
  looked = dynamic_from_cache api now key f

  abbrev called : ClientFactory K D A × Result Failure D
  called = client_for api new_for_config now later cluster_id token f

  pub client_for_stopped :
      (e : Failure) → config_for api f (trim_space cluster_id) token ≡ err e → called ≡ (f, err e)
  unfolding client_for
  client_for_stopped e stopped = rw (stopped, client_for) refl

  module _ (config : RestConfig)
      (configured : config_for api f (trim_space cluster_id) token ≡ ok config) where
    pub client_for_hit : (client : D) → looked.1 ≡ some client → called ≡ (looked.0, ok client)
    unfolding client_for
    client_for_hit client hit = rw (configured, hit, client_for) refl

    pub client_for_failed :
        (e : Failure) → looked.1 ≡ none → new_for_config config ≡ err e → called.0 ≡ looked.0
    unfolding client_for
    client_for_failed e missed failed = rw (configured, missed, failed, client_for) refl

    pub client_for_failed_answer :
        (e : Failure)
        → looked.1 ≡ none
        → new_for_config config ≡ err e
        → called.1 ≡ err (build_failure api (runes "dynamic") (trim_space cluster_id) e)
    unfolding client_for
    client_for_failed_answer e missed failed = rw (configured, missed, failed, client_for) refl

    pub client_for_new :
        (client : D)
        → looked.1 ≡ none
        → new_for_config config ≡ ok client
        → called ≡ (
          (store_dynamic api later key client looked.0).0,
          ok (store_dynamic api later key client looked.0).1,
        )
    unfolding client_for
    client_for_new client missed built = rw (configured, missed, built, client_for) refl

-- The ways through `authorization_for`.
module _ (api : TextApi) {K D A : Type 0} (new_for_config : RestConfig → Result Failure A)
    (now later : ℕ) (cluster_id token : Text) (f : ClientFactory K D A) where
  abbrev pub auth_key : Text
  auth_key = cache_key api (trim_space cluster_id) token

  abbrev auth_looked : ClientFactory K D A × Option A
  auth_looked = auth_from_cache api now auth_key f

  abbrev auth_called : ClientFactory K D A × Result Failure A
  auth_called = authorization_for api new_for_config now later cluster_id token f

  pub authorization_for_stopped :
      (e : Failure)
      → config_for api f (trim_space cluster_id) token ≡ err e
      → auth_called ≡ (f, err e)
  unfolding authorization_for
  authorization_for_stopped e stopped = rw (stopped, authorization_for) refl

  module _ (config : RestConfig)
      (configured : config_for api f (trim_space cluster_id) token ≡ ok config) where
    pub authorization_for_hit :
        (client : A) → auth_looked.1 ≡ some client → auth_called ≡ (auth_looked.0, ok client)
    unfolding authorization_for
    authorization_for_hit client hit = rw (configured, hit, authorization_for) refl

    pub authorization_for_failed :
        (e : Failure)
        → auth_looked.1 ≡ none
        → new_for_config config ≡ err e
        → auth_called.0 ≡ auth_looked.0
    unfolding authorization_for
    authorization_for_failed e missed failed =
        rw (configured, missed, failed, authorization_for) refl

    pub authorization_for_failed_answer :
        (e : Failure)
        → auth_looked.1 ≡ none
        → new_for_config config ≡ err e
        → auth_called.1 ≡ err (build_failure api (runes "authorization") (trim_space cluster_id) e)
    unfolding authorization_for
    authorization_for_failed_answer e missed failed =
        rw (configured, missed, failed, authorization_for) refl

    pub authorization_for_new :
        (client : A)
        → auth_looked.1 ≡ none
        → new_for_config config ≡ ok client
        → auth_called ≡ (
          (store_auth api later auth_key client auth_looked.0).0,
          ok (store_auth api later auth_key client auth_looked.0).1,
        )
    unfolding authorization_for
    authorization_for_new client missed built =
        rw (configured, missed, built, authorization_for) refl
