-- ===== src/Tenant/Clients/Bounds.antt =====
-- The caches of ClientFactory of tenant/client.go stay sound through its calls.
use provider_databricks.Prelude.{
  ℕ, ◌+◌, ◌^◌, ◌≤◌, ◌<◌, sym, ap, subst, inl, inr, Option-cases, arith, Text, trim_space, Result,
  Result-cases, ℤ, pos, negsuc,
}
use provider_databricks.Failure.{Failure}
use provider_databricks.Tenant.Clients.{
  TextApi, RestConfig, ClientFactory, cache_key, config_for, dynamic_from_cache, store_dynamic,
  client_for, ttl_value, capacity_value, positive_or,
}
use provider_databricks.Tenant.Clients.Caching.{Cache}
use provider_databricks.Tenant.Clients.Caching.Oldest.{IsUsedUntil-mono}
use provider_databricks.Tenant.Clients.Caching.Kept.{IsSound}
use provider_databricks.Tenant.Clients.Caching.Hits.{from_cache-IsSound, from_cache_clock}
use provider_databricks.Tenant.Clients.Caching.Stores.{store-IsSound, store_clock}
use provider_databricks.Tenant.Clients.Calls.{
  client_for_stopped, client_for_hit, client_for_failed, client_for_new,
}
use provider_databricks.Tenant.Clients.Keys.{cache_key_named}

IsSound-mono :
    {C : Type 0} (capacity a b : ℕ) (c : Cache C)
    → a ≤ b
    → IsSound capacity a c
    → IsSound capacity b c
IsSound-mono capacity a b c h sound = record {
  kept = record {
    same_keys = sound.kept.same_keys;
    named = sound.kept.named;
    stamped = sound.kept.stamped;
    used = IsUsedUntil-mono a b c.meta h sound.kept.used;
  };
  within = sound.within;
}

positive_or_above : (default : ℕ) (value : ℤ) → 0 < default → 0 < positive_or default value
positive_or_above default (pos value) h = ground arith
positive_or_above default (negsuc value) h = h

module _ (api : TextApi) {K D A : Type 0} where
  -- Both caches are sound, at the capacity of the factory and at its clock.
  pub record AreSound (f : ClientFactory K D A) : Type 0 where
    pub dynamic_sound : IsSound (capacity_value api f) f.cache_clock f.dynamic
    pub authorization_sound : IsSound (capacity_value api f) f.cache_clock f.authorization

  module _ (new_dynamic : RestConfig → Result Failure D) (now later : ℕ) (cluster_id token : Text)
      (f : ClientFactory K D A) (sound : AreSound f) (late : 0 < now) (later_still : 0 < later)
      (small : f.cache_clock + 2 < 2 ^ 64) where
    abbrev key : Text
    key = cache_key api (trim_space cluster_id) token

    abbrev looked : ClientFactory K D A
    looked = (dynamic_from_cache api now key f).0

    looked_clock : (f.cache_clock ≤ looked.cache_clock) × (looked.cache_clock ≤ f.cache_clock + 1)
    unfolding dynamic_from_cache
    looked_clock =
        from_cache_clock (ttl_value api f) now f.cache_clock key f.dynamic (omega (arith, small))

    looked-AreSound : AreSound looked
    unfolding dynamic_from_cache
    looked-AreSound = record {
      dynamic_sound =
          from_cache-IsSound (ttl_value api f) now f.cache_clock key f.dynamic
            (capacity_value api f) sound.dynamic_sound
            (cache_key_named api (trim_space cluster_id) token) late (omega (arith, small));
      authorization_sound =
          IsSound-mono (capacity_value api f) f.cache_clock looked.cache_clock f.authorization
            looked_clock.0 sound.authorization_sound;
    }

    module _ (client : D) where
      stored-AreSound : AreSound (store_dynamic api later key client looked).0
      unfolding store_dynamic
      stored-AreSound =
          let room = positive_or_above 128 looked.cache_capacity (omega arith) in
          let soon : looked.cache_clock + 1 < 2 ^ 64 = omega (arith, looked_clock.1, small) in
          let name = cache_key_named api (trim_space cluster_id) token in
          record {
            dynamic_sound =
                store-IsSound (capacity_value api looked) later looked.cache_clock key client
                  looked.dynamic looked-AreSound.dynamic_sound name room later_still soon;
            authorization_sound =
                IsSound-mono (capacity_value api looked) looked.cache_clock _ looked.authorization
                  (omega (
                    arith,
                    store_clock (capacity_value api looked) later looked.cache_clock key client
                        looked.dynamic looked-AreSound.dynamic_sound name room later_still soon,
                  ))
                  looked-AreSound.authorization_sound;
          }

    -- A call of `For` keeps both caches sound, as long as the times are not zero and the clock does not
    -- wrap around: the clients and the records have the same keys, at most as many as the capacity, and
    -- no record was used later than the clock says.
    pub client_for-AreSound : AreSound (client_for api new_dynamic now later cluster_id token f).0
    client_for-AreSound = elim (Result-cases (config_for api f (trim_space cluster_id) token)) [
      | inr (e, stopped) ↦
          subst AreSound
            (sym (
              ap (λ (r : ClientFactory K D A × Result Failure D). r.0)
                (client_for_stopped api new_dynamic now later cluster_id token f e stopped)))
            sound
      | inl (config, configured) ↦ elim (Option-cases (dynamic_from_cache api now key f).1) [
        | inr (client, hit) ↦
            subst AreSound
              (sym (
                ap (λ (r : ClientFactory K D A × Result Failure D). r.0)
                  (client_for_hit api new_dynamic now later cluster_id token f config configured
                    client hit)))
              looked-AreSound
        | inl missed ↦ elim (Result-cases (new_dynamic config)) [
          | inr (e, failed) ↦
              subst AreSound
                (sym (
                  client_for_failed api new_dynamic now later cluster_id token f config configured e
                    missed failed))
                looked-AreSound
          | inl (client, built) ↦
              subst AreSound
                (sym (
                  ap (λ (r : ClientFactory K D A × Result Failure D). r.0)
                    (client_for_new api new_dynamic now later cluster_id token f config configured
                      client missed built)))
                (stored-AreSound client)
        ]
      ]
    ]
