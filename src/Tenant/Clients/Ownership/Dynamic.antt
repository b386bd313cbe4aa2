-- ===== src/Tenant/Clients/Ownership/Dynamic.antt =====
-- `For` of tenant/client.go hands out only clients of the caller, and keeps only such.
use provider_databricks.Prelude.{
  ℕ, ◌≡◌, ◌∙◌, refl, sym, ap, subst, inl, inr, some, Option-cases, Text, All, trim_space, Result,
  ok, Result-cases, ok-injective, ok≢err,
}
use provider_databricks.Failure.{Failure}
use provider_databricks.Tenant.Clients.{
  TextApi, RestConfig, ClientFactory, cache_key, config_for, dynamic_from_cache, store_dynamic,
  client_for, ttl_value, capacity_value,
}
use provider_databricks.Tenant.Clients.Caching.{Cache, store}
use provider_databricks.Tenant.Clients.Caching.Held.{store-All, from_cache-All, from_cache_hit}
use provider_databricks.Tenant.Clients.Calls.{
  client_for_stopped, client_for_hit, client_for_failed, client_for_failed_answer, client_for_new,
}
use provider_databricks.Tenant.Clients.Ownership.{IsBuilt, IsOwned, state_of, answer_of}

module _ (api : TextApi) {K D A : Type 0} (new_dynamic : RestConfig → Result Failure D)
    (new_authorization : RestConfig → Result Failure A) where
  module _ (now later : ℕ) (cluster_id token : Text) (f : ClientFactory K D A)
      (owned : IsOwned api new_dynamic new_authorization f) where
    abbrev client_for_key : Text
    client_for_key = cache_key api (trim_space cluster_id) token

    dynamic_from_cache-IsOwned :
        IsOwned api new_dynamic new_authorization (dynamic_from_cache api now client_for_key f).0
    unfolding dynamic_from_cache config_for
    dynamic_from_cache-IsOwned = record {
      dynamic_built =
          from_cache-All (IsBuilt api new_dynamic f) (ttl_value api f) now client_for_key
            f.cache_clock f.dynamic owned.dynamic_built;
      authorization_built = owned.authorization_built;
    }

    module _ (config : RestConfig)
        (configured : config_for api f (trim_space cluster_id) token ≡ ok config) (client : D)
        (built : new_dynamic config ≡ ok client) where
      abbrev client_for_looked : ClientFactory K D A
      client_for_looked = (dynamic_from_cache api now client_for_key f).0

      abbrev client_for_stored : Cache D × ℕ × D
      client_for_stored =
          store (capacity_value api client_for_looked) later client_for_key client
            client_for_looked.cache_clock client_for_looked.dynamic

      store_dynamic-All :
          All (IsBuilt api new_dynamic f) client_for_stored.0.hot
          × IsBuilt api new_dynamic f (client_for_key, client_for_stored.2)
      unfolding dynamic_from_cache config_for
      store_dynamic-All =
          store-All (IsBuilt api new_dynamic f) (capacity_value api client_for_looked) later
            client_for_key client client_for_looked.cache_clock client_for_looked.dynamic
            (trim_space cluster_id, token, config, refl, configured, built)
            dynamic_from_cache-IsOwned.dynamic_built

      store_dynamic-IsOwned :
          IsOwned api new_dynamic new_authorization
            (store_dynamic api later client_for_key client client_for_looked).0
      unfolding store_dynamic dynamic_from_cache config_for
      store_dynamic-IsOwned = record {
        dynamic_built = store_dynamic-All.0;
        authorization_built = owned.authorization_built;
      }

    pub client_for-IsOwned :
        IsOwned api new_dynamic new_authorization
          (client_for api new_dynamic now later cluster_id token f).0
    client_for-IsOwned = elim (Result-cases (config_for api f (trim_space cluster_id) token)) [
      | inr (e, stopped) ↦
          subst (IsOwned api new_dynamic new_authorization)
            (sym (
              ap state_of
                (client_for_stopped api new_dynamic now later cluster_id token f e stopped)))
            owned
      | inl (config, configured) ↦
          elim (Option-cases (dynamic_from_cache api now client_for_key f).1) [
            | inr (client, hit) ↦
                subst (IsOwned api new_dynamic new_authorization)
                  (sym (
                    ap state_of (
                      client_for_hit api new_dynamic now later cluster_id token f config configured
                        client hit)))
                  dynamic_from_cache-IsOwned
            | inl missed ↦ elim (Result-cases (new_dynamic config)) [
              | inr (e, failed) ↦
                  subst (IsOwned api new_dynamic new_authorization)
                    (sym (
                      client_for_failed api new_dynamic now later cluster_id token f config
                        configured e missed failed))
                    dynamic_from_cache-IsOwned
              | inl (client, built) ↦
                  subst (IsOwned api new_dynamic new_authorization)
                    (sym (
                      ap state_of (
                        client_for_new api new_dynamic now later cluster_id token f config
                          configured client missed built)))
                    (store_dynamic-IsOwned config configured client built)
            ]
          ]
    ]

    -- Every answer is a client that was built for this cluster and this token.
    pub client_for-IsBuilt :
        (client : D)
        → (client_for api new_dynamic now later cluster_id token f).1 ≡ ok client
        → IsBuilt api new_dynamic f (client_for_key, client)
    unfolding dynamic_from_cache store_dynamic
    client_for-IsBuilt client answer =
        elim (Result-cases (config_for api f (trim_space cluster_id) token)) [
          | inr (e, stopped) ↦ absurd (
              ok≢err (
                sym answer
                ∙ ap answer_of
                    (client_for_stopped api new_dynamic now later cluster_id token f e stopped)))
          | inl (config, configured) ↦
              elim (Option-cases (dynamic_from_cache api now client_for_key f).1) [
                | inr (found, hit) ↦
                    from_cache_hit (IsBuilt api new_dynamic f) (ttl_value api f) now client_for_key
                      f.cache_clock f.dynamic client owned.dynamic_built
                      (hit
                        ∙ ap some (
                            ok-injective (
                              sym (
                                ap answer_of (
                                  client_for_hit api new_dynamic now later cluster_id token f config
                                    configured found hit))
                              ∙ answer)))
                | inl missed ↦ elim (Result-cases (new_dynamic config)) [
                  | inr (e, failed) ↦ absurd (
                      ok≢err (
                        sym answer
                        ∙ client_for_failed_answer api new_dynamic now later cluster_id token f
                            config configured e missed failed))
                  | inl (built_client, built) ↦
                      subst (λ (d : D). IsBuilt api new_dynamic f (client_for_key, d))
                        (ok-injective (
                          sym (
                            ap answer_of (
                              client_for_new api new_dynamic now later cluster_id token f config
                                configured built_client missed built))
                          ∙ answer))
                        (store_dynamic-All config configured built_client built).1
                ]
              ]
        ]
