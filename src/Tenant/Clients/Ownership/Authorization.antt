-- ===== src/Tenant/Clients/Ownership/Authorization.antt =====
-- `AuthorizationFor` of tenant/client.go hands out only clients of the caller, and keeps only such.
use provider_databricks.Prelude.{
  ℕ, ◌≡◌, ◌∙◌, refl, sym, ap, subst, inl, inr, some, Option-cases, Text, All, trim_space, Result,
  ok, Result-cases, ok-injective, ok≢err,
}
use provider_databricks.Failure.{Failure}
use provider_databricks.Tenant.Clients.{
  TextApi, RestConfig, ClientFactory, cache_key, config_for, auth_from_cache, store_auth,
  authorization_for, ttl_value, capacity_value,
}
use provider_databricks.Tenant.Clients.Caching.{Cache, store}
use provider_databricks.Tenant.Clients.Caching.Held.{store-All, from_cache-All, from_cache_hit}
use provider_databricks.Tenant.Clients.Calls.{
  authorization_for_stopped, authorization_for_hit, authorization_for_failed,
  authorization_for_failed_answer, authorization_for_new,
}
use provider_databricks.Tenant.Clients.Ownership.{IsBuilt, IsOwned, state_of, answer_of}

module _ (api : TextApi) {K D A : Type 0} (new_dynamic : RestConfig → Result Failure D)
    (new_authorization : RestConfig → Result Failure A) where
  module _ (now later : ℕ) (cluster_id token : Text) (f : ClientFactory K D A)
      (owned : IsOwned api new_dynamic new_authorization f) where
    abbrev authorization_for_key : Text
    authorization_for_key = cache_key api (trim_space cluster_id) token

    auth_from_cache-IsOwned :
        IsOwned api new_dynamic new_authorization
          (auth_from_cache api now authorization_for_key f).0
    unfolding auth_from_cache config_for
    auth_from_cache-IsOwned = record {
      authorization_built =
          from_cache-All (IsBuilt api new_authorization f) (ttl_value api f) now
            authorization_for_key f.cache_clock f.authorization owned.authorization_built;
      dynamic_built = owned.dynamic_built;
    }

    module _ (config : RestConfig)
        (configured : config_for api f (trim_space cluster_id) token ≡ ok config) (client : A)
        (built : new_authorization config ≡ ok client) where
      abbrev authorization_for_looked : ClientFactory K D A
      authorization_for_looked = (auth_from_cache api now authorization_for_key f).0

      abbrev authorization_for_stored : Cache A × ℕ × A
      authorization_for_stored =
          store (capacity_value api authorization_for_looked) later authorization_for_key client
            authorization_for_looked.cache_clock authorization_for_looked.authorization

      store_auth-All :
          All (IsBuilt api new_authorization f) authorization_for_stored.0.hot
          × IsBuilt api new_authorization f (authorization_for_key, authorization_for_stored.2)
      unfolding auth_from_cache config_for
      store_auth-All =
          store-All (IsBuilt api new_authorization f) (capacity_value api authorization_for_looked)
            later authorization_for_key client authorization_for_looked.cache_clock
            authorization_for_looked.authorization
            (trim_space cluster_id, token, config, refl, configured, built)
            auth_from_cache-IsOwned.authorization_built

      store_auth-IsOwned :
          IsOwned api new_dynamic new_authorization
            (store_auth api later authorization_for_key client authorization_for_looked).0
      unfolding store_auth auth_from_cache config_for
      store_auth-IsOwned = record {
        authorization_built = store_auth-All.0;
        dynamic_built = owned.dynamic_built;
      }

    pub authorization_for-IsOwned :
        IsOwned api new_dynamic new_authorization
          (authorization_for api new_authorization now later cluster_id token f).0
    authorization_for-IsOwned =
        elim (Result-cases (config_for api f (trim_space cluster_id) token)) [
          | inr (e, stopped) ↦
              subst (IsOwned api new_dynamic new_authorization)
                (sym (
                  ap state_of (
                    authorization_for_stopped api new_authorization now later cluster_id token f e
                      stopped)))
                owned
          | inl (config, configured) ↦
              elim (Option-cases (auth_from_cache api now authorization_for_key f).1) [
                | inr (client, hit) ↦
                    subst (IsOwned api new_dynamic new_authorization)
                      (sym (
                        ap state_of (
                          authorization_for_hit api new_authorization now later cluster_id token f
                            config configured client hit)))
                      auth_from_cache-IsOwned
                | inl missed ↦ elim (Result-cases (new_authorization config)) [
                  | inr (e, failed) ↦
                      subst (IsOwned api new_dynamic new_authorization)
                        (sym (
                          authorization_for_failed api new_authorization now later cluster_id token
                            f config configured e missed failed))
                        auth_from_cache-IsOwned
                  | inl (client, built) ↦
                      subst (IsOwned api new_dynamic new_authorization)
                        (sym (
                          ap state_of (
                            authorization_for_new api new_authorization now later cluster_id token f
                              config configured client missed built)))
                        (store_auth-IsOwned config configured client built)
                ]
              ]
        ]

    -- Every answer is a client that was built for this cluster and this token.
    pub authorization_for-IsBuilt :
        (client : A)
        → (authorization_for api new_authorization now later cluster_id token f).1 ≡ ok client
        → IsBuilt api new_authorization f (authorization_for_key, client)
    unfolding auth_from_cache store_auth
    authorization_for-IsBuilt client answer =
        elim (Result-cases (config_for api f (trim_space cluster_id) token)) [
          | inr (e, stopped) ↦ absurd (
              ok≢err (
                sym answer
                ∙ ap answer_of (
                    authorization_for_stopped api new_authorization now later cluster_id token f e
                      stopped)))
          | inl (config, configured) ↦
              elim (Option-cases (auth_from_cache api now authorization_for_key f).1) [
                | inr (found, hit) ↦
                    from_cache_hit (IsBuilt api new_authorization f) (ttl_value api f) now
                      authorization_for_key f.cache_clock f.authorization client
                      owned.authorization_built
                      (hit
                        ∙ ap some (
                            ok-injective (
                              sym (
                                ap answer_of (
                                  authorization_for_hit api new_authorization now later cluster_id
                                    token f config configured found hit))
                              ∙ answer)))
                | inl missed ↦ elim (Result-cases (new_authorization config)) [
                  | inr (e, failed) ↦ absurd (
                      ok≢err (
                        sym answer
                        ∙ authorization_for_failed_answer api new_authorization now later cluster_id
                            token f config configured e missed failed))
                  | inl (built_client, built) ↦
                      subst (λ (d : A). IsBuilt api new_authorization f (authorization_for_key, d))
                        (ok-injective (
                          sym (
                            ap answer_of (
                              authorization_for_new api new_authorization now later cluster_id token
                                f config configured built_client missed built))
                          ∙ answer))
                        (store_auth-All config configured built_client built).1
                ]
              ]
        ]
