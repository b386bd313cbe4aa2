-- ===== src/Tenant/Clients/Caching/Held.antt =====
-- What holds of every client that a cache of tenant/client.go keeps, through lookups and stores.
use provider_databricks.Prelude.{
  ℕ, zero, suc, ltb, if◌then◌else◌, Bool-cases, Option-cases, ◌≡◌, ◌∙◌, sym, ap, ap₂, subst, inl,
  inr, List, [], ◌∷◌, some, some≢none, some-injective, Text, text_eq, text_eq_iff, is_empty, length,
  All,
}
use provider_databricks.Prelude.Maps.{lookup, put-All, delete-All}
use provider_databricks.Tenant.Clients.Caching.{
  Cache, oldest_cache_key, forget, evict_from, evict, from_cache, store_filled, store,
}
use provider_databricks.Tenant.Clients.Caching.Hits.{Found, from_cache-cases}

-- What holds of every client with its key.
module _ {C : Type 0} (P : Text × C → Type 0) where
  pub lookup-All :
      (key : Text) (client : C) (hot : List (Text × C))
      → All P hot
      → lookup key hot ≡ some client
      → P (key, client)
  unfolding lookup
  lookup-All key client [] all found = absurd (some≢none (sym found))
  lookup-All key client ((k, d) ∷ hot) (here, all) found = elim (Bool-cases (text_eq k key)) [
    | inl same ↦
        subst (λ (e : Text × C). P e)
          (ap₂ (λ (j : Text) (e : C). (j, e)) ((text_eq_iff k key).0 same)
            (some-injective
              (subst (λ b. (if b then some d else lookup key hot) ≡ some client) same found)))
          here
    | inr other ↦
        lookup-All key client hot all
          (subst (λ b. (if b then some d else lookup key hot) ≡ some client) other found)
  ]

  evict_from-All :
      (fuel capacity : ℕ) (c : Cache C) → All P c.hot → All P (evict_from fuel capacity c).hot
  unfolding evict_from forget
  evict_from-All zero capacity c all = all
  evict_from-All (suc fuel) capacity c all = elim (Bool-cases (ltb capacity (length c.hot))) [
    | inl over ↦ elim (Bool-cases (is_empty (oldest_cache_key c.meta).0)) [
      | inl nameless ↦ rw (over, nameless) all
      | inr named ↦
          rw (over, named)
            (evict_from-All fuel capacity (forget (oldest_cache_key c.meta).0 c)
              (delete-All P (oldest_cache_key c.meta).0 c.hot all))
    ]
    | inr room ↦ rw room all
  ]

  store_filled-All :
      (capacity now : ℕ) (key : Text) (client : C) (clock : ℕ) (c : Cache C)
      → P (key, client)
      → All P c.hot
      → All P (store_filled capacity now key client clock c).0.hot
        × P (key, (store_filled capacity now key client clock c).2)
  unfolding store_filled evict
  store_filled-All capacity now key client clock c new all =
      elim (Option-cases (lookup key c.hot)) [
        | inl absent ↦
            rw (absent, store_filled)
              (evict_from-All _ capacity _ (put-All P key client c.hot new all), new)
        | inr (existing, present) ↦
            rw (present, store_filled) (all, lookup-All key existing c.hot all present)
      ]

  pub store-All :
      (capacity now : ℕ) (key : Text) (client : C) (clock : ℕ) (c : Cache C)
      → P (key, client)
      → All P c.hot
      → All P (store capacity now key client clock c).0.hot
        × P (key, (store capacity now key client clock c).2)
  unfolding store
  store-All capacity now key client clock c new all =
      store_filled-All capacity now key client _ _ new all

  pub from_cache-All :
      (ttl now : ℕ) (key : Text) (clock : ℕ) (c : Cache C)
      → All P c.hot
      → All P (from_cache ttl now key clock c).0.hot
  unfolding forget
  from_cache-All ttl now key clock c all = elim (from_cache-cases ttl now clock key c) [
    | inl (absent, same) ↦ subst (λ (s : Found C). All P s.0.hot) (sym same) all
    | inr (inl (client, present, late, same)) ↦
        subst (λ (s : Found C). All P s.0.hot) (sym same) (delete-All P key c.hot all)
    | inr (inr (client, present, early, answer, same)) ↦ subst (All P) (sym same) all
  ]

  pub from_cache_hit :
      (ttl now : ℕ) (key : Text) (clock : ℕ) (c : Cache C) (client : C)
      → All P c.hot
      → (from_cache ttl now key clock c).2 ≡ some client
      → P (key, client)
  from_cache_hit ttl now key clock c client all hit = elim (from_cache-cases ttl now clock key c) [
    | inl (absent, same) ↦ absurd (some≢none (sym hit ∙ ap (λ (s : Found C). s.2) same))
    | inr (inl (found, present, late, same)) ↦
        absurd (some≢none (sym hit ∙ ap (λ (s : Found C). s.2) same))
    | inr (inr (found, present, early, answer, same)) ↦
        lookup-All key client c.hot all (present ∙ (sym answer ∙ hit))
  ]
