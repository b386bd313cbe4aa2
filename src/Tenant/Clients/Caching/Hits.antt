-- ===== src/Tenant/Clients/Caching/Hits.antt =====
-- Lookups in the client cache of tenant/client.go: what a hit answers, and what they keep.
use provider_databricks.Prelude.{
  ℕ, ◌+◌, ◌-◌, ◌^◌, ◌≤◌, ◌<◌, leb, Bool-cases, Option-cases, ◌≡◌, refl, sym, ap, subst, inl, inr,
  ◌⊎◌, true, false, Option, none, some, arith, Text, is_empty, leb→le, not_leb→lt,
}
use provider_databricks.Prelude.Maps.{lookup, put, length-delete}
use provider_databricks.Tenant.Clients.Caching.{
  CacheRecord, Cache, next_clock, record_of, forget, from_cache,
}
use provider_databricks.Tenant.Clients.Caching.Kept.{
  next_clock_lem, record_of-IsStamped, IsSound, forget-IsKept, touch-IsKept,
}

-- What a lookup leaves and answers.
abbrev pub Found : Type 0 → Type 0
Found C = Cache C × ℕ × Option C

module _ {C : Type 0} where
  -- No client has the key.
  abbrev pub Misses : Text → ℕ → Cache C → Found C → Type 0
  Misses key clock c found = (lookup key c.hot ≡ none) × (found ≡ (c, clock, none))

  -- The client is at least `ttl` old, and is gone.
  abbrev pub Expires : (ttl now : ℕ) → Text → ℕ → Cache C → Found C → Type 0
  Expires ttl now key clock c found =
      (client : C) × (lookup key c.hot ≡ some client)
      × (ttl ≤ now - (record_of now (lookup key c.meta)).created_at)
      × (found ≡ (forget key c, clock, none))

  -- The client is younger, and is marked as the one that was used last.
  abbrev pub Hits : (ttl now : ℕ) → Text → ℕ → Cache C → Found C → Type 0
  Hits ttl now key clock c found =
      (client : C) × (lookup key c.hot ≡ some client)
      × (now - (record_of now (lookup key c.meta)).created_at < ttl)
      × (found.2 ≡ some client)
      × (found.0.hot ≡ c.hot)

  module _ (ttl now clock : ℕ) (key : Text) (c : Cache C) where
    abbrev found : Found C
    found = from_cache ttl now key clock c

    abbrev used_record : CacheRecord
    used_record = record (record_of now (lookup key c.meta)) { last_used = next_clock clock }

    abbrev touched : Cache C
    touched = record c { meta = put key used_record c.meta }

    abbrev old : ℕ
    old = now - (record_of now (lookup key c.meta)).created_at

    pub from_cache_absent : lookup key c.hot ≡ none → found ≡ (c, clock, none)
    unfolding from_cache
    from_cache_absent absent = rw (absent, from_cache) refl

    module _ (client : C) (present : lookup key c.hot ≡ some client) where
      from_cache_old : leb ttl old ≡ true → found ≡ (forget key c, clock, none)
      unfolding from_cache
      from_cache_old old_enough = rw (present, old_enough, from_cache) refl

      from_cache_young : leb ttl old ≡ false → found ≡ (touched, next_clock clock, some client)
      unfolding from_cache
      from_cache_young young = rw (present, young, from_cache) refl

    pub from_cache-cases :
        Misses key clock c found
        ⊎ (Expires ttl now key clock c found ⊎ Hits ttl now key clock c found)
    from_cache-cases = elim (Option-cases (lookup key c.hot)) [
      | inl absent ↦ inl (absent, from_cache_absent absent)
      | inr (client, present) ↦ elim (Bool-cases (leb ttl old)) [
        | inl old_enough ↦
            inr (
              inl
                (client, present, leb→le _ _ old_enough, from_cache_old client present old_enough))
        | inr young ↦ inr (
            inr (
              client,
              present,
              not_leb→lt _ _ young,
              subst (λ (s : Found C). s.2 ≡ some client)
                  (sym (from_cache_young client present young)) refl,
              subst (λ (s : Found C). s.0.hot ≡ c.hot) (sym (from_cache_young client present young))
                  refl,
            ))
      ]
    ]

    -- The clock moves by at most one.
    pub from_cache_clock : clock + 1 < 2 ^ 64 → (clock ≤ found.1) × (found.1 ≤ clock + 1)
    from_cache_clock small = elim (Option-cases (lookup key c.hot)) [
      | inl absent ↦ omega (arith, ap (λ (s : Found C). s.1) (from_cache_absent absent))
      | inr (client, present) ↦ elim (Bool-cases (leb ttl old)) [
        | inl old_enough ↦
            omega (arith, ap (λ (s : Found C). s.1) (from_cache_old client present old_enough))
        | inr young ↦ omega (
          arith,
          ap (λ (s : Found C). s.1) (from_cache_young client present young),
          next_clock_lem clock small,
        )
      ]
    ]

    pub from_cache-IsSound :
        (capacity : ℕ)
        → IsSound capacity clock c
        → is_empty key ≡ false
        → 0 < now
        → clock + 1 < 2 ^ 64
        → IsSound capacity found.1 found.0
    unfolding forget
    from_cache-IsSound capacity sound name late small = elim (Option-cases (lookup key c.hot)) [
      | inl absent ↦
          subst (λ (s : Found C). IsSound capacity s.1 s.0) (sym (from_cache_absent absent)) sound
      | inr (client, present) ↦ elim (Bool-cases (leb ttl old)) [
        | inl old_enough ↦
            subst (λ (s : Found C). IsSound capacity s.1 s.0)
              (sym (from_cache_old client present old_enough))
              (record {
                kept = forget-IsKept key clock c sound.kept;
                within = omega (arith, length-delete key c.hot, sound.within);
              })
        | inr young ↦
            subst (λ (s : Found C). IsSound capacity s.1 s.0)
              (sym (from_cache_young client present young))
              (subst (λ n. IsSound capacity n touched) (sym (next_clock_lem clock small))
                (record {
                  kept =
                      touch-IsKept key used_record client clock c sound.kept present name
                        (record_of-IsStamped now (lookup key c.meta) late)
                        (next_clock_lem clock small);
                  within = sound.within;
                }))
      ]
    ]
