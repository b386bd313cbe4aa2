-- ===== src/Tenant/Clients/Ownership/Sequences.antt =====
-- ClientFactory of tenant/client.go through any sequence of calls, one after the other.
use provider_databricks.Prelude.{
  ℕ, ◌≤◌, ◌≡◌, ◌∙◌, refl, sym, ap, subst, ◌++◌, [], not, is_empty, Option, arith, Text, runes,
  length, trim_space, Result, ok, >>=-eq-ok, reject_if-eq-ok, ok-injective,
}
use provider_databricks.Failure.{Failure}
use provider_databricks.Tenant.Clients.{
  TextApi, TlsConfig, RestConfig, BaseConfig, ClientFactory, new_client_factory, hash_token,
  config_for, invalid_cluster, checked_host, set_base_config, install_config, clear_caches,
  set_authority, client_for, authorization_for, dynamic_from_cache, store_dynamic, auth_from_cache,
  store_auth, cache_key,
}
use provider_databricks.Tenant.Clients.Keys.{cache_key-injective}
use provider_databricks.Tenant.Clients.Ownership.{IsBuilt, IsOwned}
use provider_databricks.Tenant.Clients.Ownership.Dynamic.{client_for-IsOwned, client_for-IsBuilt}
use provider_databricks.Tenant.Clients.Ownership.Authorization.{
  authorization_for-IsOwned, authorization_for-IsBuilt,
}

-- No client certificate, and no key.
abbrev pub HasNoCredentials : TlsConfig → Type 0
HasNoCredentials tls =
    (tls.cert_contents ≡ []) × (tls.cert_file ≡ []) × (tls.key_contents ≡ []) × (tls.key_file ≡ [])

module _ (api : TextApi) {K D A : Type 0} (new_dynamic : RestConfig → Result Failure D)
    (new_authorization : RestConfig → Result Failure A) where
  -- One call.
  pub data Call (f : ClientFactory K D A) : ClientFactory K D A → Type 0 where
    configure :
        {g : ClientFactory K D A} (base : Option BaseConfig)
        → set_base_config api base f ≡ ok g
        → Call f g
    authorize :
        (authority : Option (Text → Result Failure (Option K)))
        → Call f (set_authority api authority f)
    ask_client :
        (now later : ℕ) (cluster_id token : Text)
        → Call f (client_for api new_dynamic now later cluster_id token f).0
    ask_authorization :
        (now later : ℕ) (cluster_id token : Text)
        → Call f (authorization_for api new_authorization now later cluster_id token f).0

  -- The factories that calls lead to, from NewDeferredClientFactory on.
  pub data Reach : ClientFactory K D A → Type 0 where
    start : Reach new_client_factory
    next : {f g : ClientFactory K D A} → Reach f → Call f g → Reach g

  abbrev Owned : ClientFactory K D A → Type 0
  Owned = IsOwned api new_dynamic new_authorization

  configured-IsOwned :
      (base : Option BaseConfig) (f g : ClientFactory K D A)
      → set_base_config api base f ≡ ok g
      → Owned g
  unfolding set_base_config clear_caches
  configured-IsOwned base f g done =
      let host = >>=-eq-ok (checked_host api base) _ done in
      subst Owned (ok-injective host.2) (record { dynamic_built = tt; authorization_built = tt })

  Call-IsOwned : {f g : ClientFactory K D A} → Owned f → Call f g → Owned g
  unfolding set_authority config_for
  Call-IsOwned owned (configure base done) = configured-IsOwned base _ _ done
  Call-IsOwned owned (authorize authority) = record {
    dynamic_built = owned.dynamic_built;
    authorization_built = owned.authorization_built;
  }
  Call-IsOwned {f} owned (ask_client now later cluster_id token) =
      client_for-IsOwned api new_dynamic new_authorization now later cluster_id token f owned
  Call-IsOwned {f} owned (ask_authorization now later cluster_id token) =
      authorization_for-IsOwned api new_dynamic new_authorization now later cluster_id token f owned

  Reach-IsOwned : {f : ClientFactory K D A} → Reach f → Owned f
  unfolding new_client_factory
  Reach-IsOwned start = record { dynamic_built = tt; authorization_built = tt }
  Reach-IsOwned (next r call) = Call-IsOwned (Reach-IsOwned r) call

  client_for_tls :
      (now later : ℕ) (cluster_id token : Text) (f : ClientFactory K D A)
      → (client_for api new_dynamic now later cluster_id token f).0.base_tls ≡ f.base_tls
  unfolding client_for dynamic_from_cache store_dynamic
  client_for_tls now later cluster_id token f = ground arith

  authorization_for_tls :
      (now later : ℕ) (cluster_id token : Text) (f : ClientFactory K D A)
      → (authorization_for api new_authorization now later cluster_id token f).0.base_tls
        ≡ f.base_tls
  unfolding authorization_for auth_from_cache store_auth
  authorization_for_tls now later cluster_id token f = ground arith

  configured_tls :
      (base : Option BaseConfig) (f g : ClientFactory K D A)
      → set_base_config api base f ≡ ok g
      → HasNoCredentials g.base_tls
  unfolding set_base_config clear_caches install_config
  configured_tls base f g done =
      let host = >>=-eq-ok (checked_host api base) _ done in
      subst (λ (g : ClientFactory K D A). HasNoCredentials g.base_tls) (ok-injective host.2)
        (refl, refl, refl, refl)

  Reach-HasNoCredentials : {f : ClientFactory K D A} → Reach f → HasNoCredentials f.base_tls
  unfolding new_client_factory set_authority
  Reach-HasNoCredentials start = (refl, refl, refl, refl)
  Reach-HasNoCredentials (next r (configure base done)) = configured_tls base _ _ done
  Reach-HasNoCredentials (next r (authorize authority)) = Reach-HasNoCredentials r
  Reach-HasNoCredentials (next {f} r (ask_client now later cluster_id token)) =
      subst HasNoCredentials (sym (client_for_tls now later cluster_id token f))
        (Reach-HasNoCredentials r)
  Reach-HasNoCredentials (next {f} r (ask_authorization now later cluster_id token)) =
      subst HasNoCredentials (sym (authorization_for_tls now later cluster_id token f))
        (Reach-HasNoCredentials r)

  config_for_lem :
      (f : ClientFactory K D A) (cluster_id token : Text) {config : RestConfig}
      → config_for api f cluster_id token ≡ ok config
      → config ≡ record {
        host = f.base_host ++ (runes "/clusters/" ++ trim_space cluster_id);
        bearer_token = token;
        tls = f.base_tls;
      }
  unfolding config_for
  config_for_lem f cluster_id token done =
      let valid = reject_if-eq-ok (invalid_cluster api (trim_space cluster_id)) _ _ done in
      let present = reject_if-eq-ok (is_empty (trim_space token)) _ _ valid.1 in
      sym (ok-injective (reject_if-eq-ok (not f.configured) _ _ present.1).1)

  -- A configuration that acts as a caller whose token has the hash of this one, in this cluster, under
  -- the configuration that is installed and with no certificate of the provider.
  abbrev pub IsCallers : (cluster_id token : Text) → ClientFactory K D A → RestConfig → Type 0
  IsCallers cluster_id token f config =
      (hash_token api config.bearer_token ≡ hash_token api token)
      × (config.host ≡ f.base_host ++ (runes "/clusters/" ++ trim_space (trim_space cluster_id)))
      × HasNoCredentials config.tls

  module _ (long : (token : Text) → 8 ≤ length (api.sha256 token)) where
    built-IsCallers :
        {C : Type 0} (new : RestConfig → Result Failure C) (cluster_id token : Text)
        (f : ClientFactory K D A) (client : C)
        → Reach f
        → IsBuilt api new f (cache_key api (trim_space cluster_id) token, client)
        → (config : RestConfig) × IsCallers cluster_id token f config × (new config ≡ ok client)
    built-IsCallers new cluster_id token f client r
          (other, caller, config, same, configured, built) =
        let parts = cache_key-injective api long (trim_space cluster_id) other token caller same in
        let read = config_for_lem f other caller configured in
        (
          config,
          (
            ap (λ (c : RestConfig). hash_token api c.bearer_token) read ∙ sym parts.1,
            ap (λ (c : RestConfig). c.host) read
                ∙ ap (λ (t : Text). f.base_host ++ (runes "/clusters/" ++ trim_space t))
                    (sym parts.0),
            subst (λ (c : RestConfig). HasNoCredentials c.tls) (sym read)
                (Reach-HasNoCredentials r),
          ),
          built,
        )

    -- After any sequence of calls, a client that `For` answers was built by `NewForConfig` from a
    -- configuration of the caller: its token has the hash of the caller's token, its host is the cluster
    -- on the base host that is installed, and it has no client certificate and no key.
    pub client_for-IsCallers :
        (now later : ℕ) (cluster_id token : Text) (f : ClientFactory K D A) (client : D)
        → Reach f
        → (client_for api new_dynamic now later cluster_id token f).1 ≡ ok client
        → (config : RestConfig) × IsCallers cluster_id token f config
          × (new_dynamic config ≡ ok client)
    client_for-IsCallers now later cluster_id token f client r answer =
        built-IsCallers new_dynamic cluster_id token f client r (
          client_for-IsBuilt api new_dynamic new_authorization now later cluster_id token f
            (Reach-IsOwned r) client answer)

    -- After any sequence of calls, a client that `AuthorizationFor` answers was built from a configuration
    -- of the caller: its token has the hash of the caller's token, its host is the cluster on the base
    -- host that is installed, and it has no client certificate and no key.
    pub authorization_for-IsCallers :
        (now later : ℕ) (cluster_id token : Text) (f : ClientFactory K D A) (client : A)
        → Reach f
        → (authorization_for api new_authorization now later cluster_id token f).1 ≡ ok client
        → (config : RestConfig) × IsCallers cluster_id token f config
          × (new_authorization config ≡ ok client)
    authorization_for-IsCallers now later cluster_id token f client r answer =
        built-IsCallers new_authorization cluster_id token f client r (
          authorization_for-IsBuilt api new_dynamic new_authorization now later cluster_id token f
            (Reach-IsOwned r) client answer)
