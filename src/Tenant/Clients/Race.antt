-- ===== src/Tenant/Clients/Race.antt =====
-- `For` and `SetBaseConfig` of tenant/client.go at the same time: `For` reads the configuration, looks
-- into the cache, builds the client and stores it in steps of their own, and `SetBaseConfig` installs
-- the host and clears the caches in two.
use provider_databricks.Prelude.{
  ℕ, ◌-◌, ◌<◌, ◌≡◌, refl, sym, ap, subst, ◌++◌, [], ◌∷◌, Option, none, some, arith, Text, runes,
  trim_space, is_empty, text_eq_refl, Result, ok, reject_if-eq-ok, le→not_ltb, ℤ, pos, negsuc,
}
use provider_databricks.Failure.{Failure}
use provider_databricks.Prelude.Maps.{lookup}
use provider_databricks.Tenant.Clients.{
  TextApi, TlsConfig, RestConfig, BaseConfig, ClientFactory, cache_key, config_for, checked_host,
  install_config, clear_caches, dynamic_from_cache, store_dynamic, client_for, ttl_value,
  capacity_value, positive_or, invalid_cluster, without_credentials,
}
use provider_databricks.Tenant.Clients.Caching.{
  Cache, empty_cache, next_clock, from_cache, store, evict,
}
use provider_databricks.Tenant.Clients.Caching.Hits.{Found, from_cache_absent}
use provider_databricks.Tenant.Clients.Caching.Stores.{After}
use provider_databricks.Tenant.Clients.Calls.{client_for_hit}

-- How far a call of `For` is.
pub data Request (D : Type 0) : Type 0 where
  waiting : Request D
  configured : RestConfig → Request D
  missed : RestConfig → Request D
  built : D → Request D
  answered : D → Request D

-- How far a call of `SetBaseConfig` is.
pub data Change : Type 0 where
  asked installed cleared : Change

pub record World (K D A : Type 0) : Type 0 where
  pub factory : ClientFactory K D A
  pub request : Request D
  pub change : Change

-- The key of the call.
abbrev key : TextApi → (cluster_id token : Text) → Text
key api cluster_id token = cache_key api (trim_space cluster_id) token

module _ (api : TextApi) {K D A : Type 0} (new_dynamic : RestConfig → Result Failure D)
    (cluster_id token : Text) (base : Option BaseConfig) where
  -- One step of either call.
  pub data Step (w : World K D A) : World K D A → Type 0 where
    read_config :
        (config : RestConfig)
        → w.request ≡ waiting
        → config_for api w.factory (trim_space cluster_id) token ≡ ok config
        → Step w (record w { request = configured config })
    look :
        (now : ℕ) (config : RestConfig)
        → w.request ≡ configured config
        → (dynamic_from_cache api now (key api cluster_id token) w.factory).1 ≡ none
        → Step w (record w {
          factory = (dynamic_from_cache api now (key api cluster_id token) w.factory).0;
          request = missed config;
        })
    find :
        (now : ℕ) (config : RestConfig) (client : D)
        → w.request ≡ configured config
        → (dynamic_from_cache api now (key api cluster_id token) w.factory).1 ≡ some client
        → Step w (record w {
          factory = (dynamic_from_cache api now (key api cluster_id token) w.factory).0;
          request = answered client;
        })
    build :
        (config : RestConfig) (client : D)
        → w.request ≡ missed config
        → new_dynamic config ≡ ok client
        → Step w (record w { request = built client })
    keep :
        (later : ℕ) (client : D)
        → w.request ≡ built client
        → Step w (record w {
          factory = (store_dynamic api later (key api cluster_id token) client w.factory).0;
          request =
              answered (store_dynamic api later (key api cluster_id token) client w.factory).1;
        })
    install :
        (host : Text) (tls : TlsConfig)
        → w.change ≡ asked
        → checked_host api base ≡ ok (host, tls)
        → Step w (record w { factory = install_config api host tls w.factory; change = installed })
    clear :
        w.change ≡ installed
        → Step w (record w { factory = clear_caches api w.factory; change = cleared })

  pub data Reach (w : World K D A) : World K D A → Type 0 where
    here : Reach w w
    next : {u v : World K D A} → Reach w u → Step u v → Reach w v

-- Before either call.
abbrev pub start : {K D A : Type 0} → ClientFactory K D A → World K D A
start f = record { factory = f; request = waiting; change = asked }

store_empty :
    {C : Type 0} (capacity now : ℕ) (k : Text) (client : C) (clock : ℕ)
    → 0 < capacity
    → store capacity now k client clock empty_cache ≡ (
      record {
        hot = (k, client) ∷ [];
        meta = (k, record { created_at = now; last_used = next_clock clock }) ∷ [];
      },
      next_clock clock,
      client,
    )
unfolding store evict
store_empty capacity now k client clock room = rw (le→not_ltb capacity 1 room) refl

positive_or_above : (default : ℕ) (value : ℤ) → 0 < default → 0 < positive_or default value
positive_or_above default (pos value) h = ground arith
positive_or_above default (negsuc value) h = h

kept_young :
    {C : Type 0} (ttl now later : ℕ) (k : Text) (client : C) (used clock : ℕ)
    → 0 < later
    → now - later < ttl
    → (from_cache ttl now k clock (record {
      hot = (k, client) ∷ [];
      meta = (k, record { created_at = later; last_used = used }) ∷ [];
    })).2
      ≡ some client
unfolding from_cache
kept_young ttl now later k client used clock late young =
    rw (text_eq_refl k, from_cache) (ground (arith, text_eq_refl k))

module _ (api : TextApi) {K D A : Type 0} (new_dynamic : RestConfig → Result Failure D)
    (cluster_id token : Text) (base : BaseConfig) (f : ClientFactory K D A) (config : RestConfig)
    (client : D) (host : Text) (tls : TlsConfig) (now later : ℕ)
    (ready : config_for api f (trim_space cluster_id) token ≡ ok config)
    (absent : lookup (key api cluster_id token) f.dynamic.hot ≡ none)
    (made : new_dynamic config ≡ ok client)
    (changed : checked_host api (some base) ≡ ok (host, tls)) (late : 0 < later) where
  abbrev looked : ClientFactory K D A
  looked = (dynamic_from_cache api now (key api cluster_id token) f).0

  abbrev cleared_factory : ClientFactory K D A
  cleared_factory = clear_caches api (install_config api host tls looked)

  abbrev kept : ClientFactory K D A × D
  kept = store_dynamic api later (key api cluster_id token) client cleared_factory

  abbrev end : World K D A
  end = record { factory = kept.0; request = answered kept.1; change = cleared }

  looked-none : (dynamic_from_cache api now (key api cluster_id token) f).1 ≡ none
  unfolding dynamic_from_cache
  looked-none =
      ap (λ (s : Found D). s.2)
        (from_cache_absent (ttl_value api f) now f.cache_clock (key api cluster_id token) f.dynamic
          absent)

  end-Reach : Reach api new_dynamic cluster_id token (some base) (start f) end
  end-Reach =
      next
        (next
          (next
            (next
              (next (next here (read_config config refl ready)) (look now config refl looked-none))
              (build config client refl made))
            (install host tls refl changed))
          (clear refl))
        (keep later client refl)

  abbrev kept_cache : ℕ → Cache D
  kept_cache clock = record {
    hot = (key api cluster_id token, client) ∷ [];
    meta =
        (key api cluster_id token, record { created_at = later; last_used = next_clock clock })
        ∷ [];
  }

  stored :
      (store
        (capacity_value api cleared_factory)
        later
        (key api cluster_id token)
        client
        cleared_factory.cache_clock
        empty_cache)
      ≡ (kept_cache cleared_factory.cache_clock, next_clock cleared_factory.cache_clock, client)
  stored =
      store_empty (capacity_value api cleared_factory) later (key api cluster_id token) client
        cleared_factory.cache_clock
        (positive_or_above 128 cleared_factory.cache_capacity (omega arith))

  kept-answer : kept.1 ≡ client
  unfolding store_dynamic clear_caches
  kept-answer = ap (λ (s : After D). s.2) stored

  kept-dynamic : kept.0.dynamic ≡ kept_cache cleared_factory.cache_clock
  unfolding store_dynamic clear_caches
  kept-dynamic = ap (λ (s : After D). s.0) stored

  -- The configuration of the next call.
  abbrev next_config : RestConfig
  next_config = record {
    host = host ++ (runes "/clusters/" ++ trim_space (trim_space cluster_id));
    bearer_token = token;
    tls = without_credentials tls;
  }

  next_ready : config_for api kept.0 (trim_space cluster_id) token ≡ ok next_config
  unfolding config_for store_dynamic clear_caches install_config
  next_ready =
      let valid =
        reject_if-eq-ok (invalid_cluster api (trim_space (trim_space cluster_id))) _ _ ready in
      let present = reject_if-eq-ok (is_empty (trim_space token)) _ _ valid.1 in
      rw (valid.0, present.0) refl

  next_hit :
      (again : ℕ)
      → again - later < ttl_value api f
      → (dynamic_from_cache api again (key api cluster_id token) kept.0).1 ≡ some client
  unfolding dynamic_from_cache store_dynamic clear_caches install_config
  next_hit again young =
      subst
        (λ (c : Cache D).
          (from_cache (ttl_value api f) again (key api cluster_id token) kept.0.cache_clock c).2
          ≡ some client)
        (sym kept-dynamic)
        (kept_young (ttl_value api f) again later (key api cluster_id token) client _
          kept.0.cache_clock late young)

  -- Where a call of `For` has read the configuration before `SetBaseConfig` installs another host, and
  -- stores its client after the caches are cleared, the next call of `For` with the same cluster and
  -- token answers that client of the old configuration, although the change is complete, as long as the
  -- client is younger than the lifetime.
  pub stale_client :
      (again after : ℕ)
      → again - later < ttl_value api f
      → (w : World K D A) × Reach api new_dynamic cluster_id token (some base) (start f) w
        × (w.change ≡ cleared)
        × (w.factory.base_host ≡ host)
        × ((client_for api new_dynamic again after cluster_id token w.factory).1 ≡ ok client)
  unfolding store_dynamic clear_caches install_config
  stale_client again after young = (
    end,
    end-Reach,
    refl,
    refl,
    ap (λ (r : ClientFactory K D A × Result Failure D). r.1)
        (client_for_hit api new_dynamic again after cluster_id token kept.0 next_config next_ready
          client (next_hit again young)),
  )
