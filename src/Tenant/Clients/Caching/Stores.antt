-- ===== src/Tenant/Clients/Caching/Stores.antt =====
-- Hits and stores of the client cache of tenant/client.go: what they keep, answer and evict.
use provider_databricks.Prelude.{
  ℕ, suc, ◌+◌, ◌-◌, ◌^◌, ◌≤◌, ◌<◌, ltb, leb, if◌then◌else◌, Bool-cases, Option-cases, ◌≡◌, ◌≢◌, ◌∙◌,
  refl, sym, ap, subst, ◌⊎◌, inl, inr, false, [], ◌∷◌, ◌++◌, none, some, arith, Text, text_eq_iff,
  text_eq_refl, is_empty, length, length-append, not_ltb→le, ltb→lt, some≢none,
}
use provider_databricks.Prelude.Maps.{
  lookup, put, delete, length-keys, length-put, length-delete_present, lookup-put, lookup-delete,
  put_absent, lookup-keys, lookup-keys_absent,
}
use provider_databricks.Tenant.Clients.Caching.{
  CacheRecord, Cache, next_clock, record_of, oldest_cache_key, forget, evict_from, evict,
  from_cache, store_filled, store,
}
use provider_databricks.Tenant.Clients.Caching.Oldest.{
  oldest_cache_key-append, IsOldest, HasRecord-lookup, HasRecord-named,
}
use provider_databricks.Tenant.Clients.Caching.Kept.{
  next_clock_lem, record_of-IsStamped, IsKept, IsSound, store_lem, forget-IsKept, touch-IsKept,
  added, added-IsKept, evict_from_room, evict_from_once,
}

-- The state, the clock and the client after a store.
abbrev pub After : Type 0 → Type 0
After C = Cache C × ℕ × C

module _ {C : Type 0} where
  -- The key is there: its client is the answer, and no client comes or goes.
  abbrev pub Reuses : (key : Text) → Cache C → After C → Type 0
  Reuses key c after =
      (existing : C) × (lookup key c.hot ≡ some existing)
      × (after.2 ≡ existing)
      × (after.0.hot ≡ c.hot)

  -- There is room: the client is added.
  abbrev pub Adds : (capacity : ℕ) → (key : Text) → (client : C) → Cache C → After C → Type 0
  Adds capacity key client c after =
      (lookup key c.hot ≡ none)
      × (length c.hot < capacity)
      × (after.2 ≡ client)
      × (after.0.hot ≡ c.hot ++ (key, client) ∷ [])

  -- There is none: the client takes the place of the one that was used least recently.
  abbrev pub Replaces : (capacity : ℕ) → (key : Text) → (client : C) → Cache C → After C → Type 0
  Replaces capacity key client c after =
      (lookup key c.hot ≡ none)
      × (length c.hot ≡ capacity)
      × (after.2 ≡ client)
      × ((oldest : Text) × (used : ℕ) × IsOldest oldest used c.meta
          × (oldest ≢ key)
          × (after.0.hot ≡ delete oldest (c.hot ++ (key, client) ∷ [])))

  abbrev pub Stores : (capacity : ℕ) → (key : Text) → (client : C) → Cache C → After C → Type 0
  Stores capacity key client c after =
      Reuses key c after ⊎ (Adds capacity key client c after ⊎ Replaces capacity key client c after)

  module _ (capacity now clock : ℕ) (key : Text) (client : C) (c : Cache C)
      (sound : IsSound capacity clock c) (name : is_empty key ≡ false) (some_room : 0 < capacity)
      (late : 0 < now) (small : clock + 1 < 2 ^ 64) where
    abbrev fresh : CacheRecord
    fresh = record { created_at = now; last_used = next_clock clock }

    abbrev stored : After C
    stored = store capacity now key client clock c

    abbrev with_new : Cache C
    with_new = added key client fresh c

    abbrev touched : Cache C
    touched = record c {
      meta =
          put key (record (record_of now (lookup key c.meta)) { last_used = next_clock clock })
            c.meta;
    }

    reused :
        (existing : C)
        → lookup key c.hot ≡ some existing
        → stored ≡ (touched, next_clock clock, existing)
    unfolding store_filled
    reused existing present =
        store_lem capacity now key client clock c sound.kept.same_keys
        ∙ rw (present, store_filled) refl

    stored_new :
        lookup key c.hot ≡ none → stored ≡ (evict capacity with_new, next_clock clock, client)
    unfolding store_filled
    stored_new absent =
        store_lem capacity now key client clock c sound.kept.same_keys
        ∙ rw (absent, store_filled) refl

    fresh-last_used : fresh.last_used ≡ clock + 1
    fresh-last_used = next_clock_lem clock small

    with_new-hot : lookup key c.hot ≡ none → with_new.hot ≡ c.hot ++ (key, client) ∷ []
    with_new-hot absent = put_absent key client c.hot absent

    with_new-meta : lookup key c.hot ≡ none → with_new.meta ≡ c.meta ++ (key, fresh) ∷ []
    with_new-meta absent =
        put_absent key fresh c.meta
          (lookup-keys_absent key c.hot c.meta sound.kept.same_keys absent)

    length-meta : length c.meta ≡ length c.hot
    length-meta =
        sym (length-keys c.meta) ∙ (ap length (sym sound.kept.same_keys) ∙ length-keys c.hot)

    evict_room : length c.hot < capacity → evict capacity with_new ≡ with_new
    unfolding evict
    evict_room room =
        evict_from_room (length with_new.meta) capacity with_new
          (omega (arith, length-put key client c.hot))

    full_of : ltb (length c.hot) capacity ≡ false → length c.hot ≡ capacity
    full_of no_room = omega (arith, not_ltb→le _ _ no_room, sound.within)

    forget-hot : (k : Text) (d : Cache C) → (forget k d).hot ≡ delete k d.hot
    unfolding forget
    forget-hot k d = refl

    module _ (absent : lookup key c.hot ≡ none) (full : length c.hot ≡ capacity) where
      abbrev oldest : Text × ℕ
      oldest = oldest_cache_key with_new.meta

      before-IsOldest : IsOldest oldest.0 oldest.1 c.meta
      before-IsOldest =
          subst (λ m. IsOldest (oldest_cache_key m).0 (oldest_cache_key m).1 c.meta)
            (sym (with_new-meta absent))
            (oldest_cache_key-append key fresh clock c.meta (omega (arith, length-meta))
              sound.kept.named name sound.kept.used fresh-last_used)

      oldest-present : (found : C) × (lookup oldest.0 c.hot ≡ some found)
      oldest-present =
          let found = HasRecord-lookup oldest.0 oldest.1 c.meta before-IsOldest.0 in
          lookup-keys oldest.0 found.0 c.meta c.hot (sym sound.kept.same_keys) found.1

      oldest-ne-key : oldest.0 ≢ key
      oldest-ne-key same =
          some≢none (sym oldest-present.1 ∙ (ap (λ k. lookup k c.hot) same ∙ absent))

      oldest_there : lookup oldest.0 with_new.hot ≡ some oldest-present.0
      oldest_there = ground (
        arith,
        lookup-put oldest.0 key client c.hot,
        text_eq_iff key oldest.0,
        oldest-ne-key,
        oldest-present.1,
      )

      length-with_new-hot : length with_new.hot ≡ capacity + 1
      length-with_new-hot =
          rw (with_new-hot absent) (omega (arith, full, length-append c.hot ((key, client) ∷ [])))

      length-with_new-meta : length with_new.meta ≡ suc (length c.meta)
      length-with_new-meta =
          rw (with_new-meta absent) (omega (arith, length-append c.meta ((key, fresh) ∷ [])))

      length-forget : length (forget oldest.0 with_new).hot ≤ capacity
      unfolding forget
      length-forget = omega (
        arith,
        length-with_new-hot,
        length-delete_present oldest.0 oldest-present.0 with_new.hot oldest_there,
      )

      evict_full : evict capacity with_new ≡ forget oldest.0 with_new
      unfolding evict
      evict_full =
          ap (λ rounds. evict_from rounds capacity with_new) length-with_new-meta
          ∙ evict_from_once (length c.meta) capacity with_new (omega (arith, length-with_new-hot))
              (HasRecord-named oldest.0 oldest.1 c.meta sound.kept.named before-IsOldest.0)
              length-forget

    evicted :
        lookup key c.hot ≡ none
        → Adds capacity key client c stored ⊎ Replaces capacity key client c stored
    evicted absent = elim (Bool-cases (ltb (length c.hot) capacity)) [
      | inl room ↦ inl (
        absent,
        ltb→lt _ _ room,
        ap (λ (s : After C). s.2) (stored_new absent),
        ap (λ (s : After C). s.0.hot) (stored_new absent)
            ∙ (ap (λ (d : Cache C). d.hot) (evict_room (ltb→lt _ _ room)) ∙ with_new-hot absent),
      )
      | inr no_room ↦
          let full = full_of no_room in
          inr (
            absent,
            full,
            ap (λ (s : After C). s.2) (stored_new absent),
            (
              (oldest absent full).0,
              (oldest absent full).1,
              before-IsOldest absent full,
              oldest-ne-key absent full,
              ap (λ (s : After C). s.0.hot) (stored_new absent)
                  ∙ (ap (λ (d : Cache C). d.hot) (evict_full absent full)
                      ∙ (forget-hot _ with_new
                          ∙ ap (delete (oldest absent full).0) (with_new-hot absent))),
            ),
          )
    ]

    -- On a sound cache, with a key that is not empty: a store answers the client that the key has, or else
    -- the new one, which it adds; if the cache is full, the new one takes the place of the one that was
    -- used least recently.
    pub store-Stores : Stores capacity key client c stored
    store-Stores = elim (Option-cases (lookup key c.hot)) [
      | inl absent ↦ inr (evicted absent)
      | inr (existing, present) ↦ inl (
        existing,
        present,
        ap (λ (s : After C). s.2) (reused existing present),
        ap (λ (s : After C). s.0.hot) (reused existing present),
      )
    ]

    with_new-IsKept : IsKept (clock + 1) with_new
    with_new-IsKept = added-IsKept key fresh client clock c sound.kept name late fresh-last_used

    -- The cache stays sound at the clock after a store.
    pub store-IsSound : IsSound capacity stored.1 stored.0
    store-IsSound = elim (Option-cases (lookup key c.hot)) [
      | inr (existing, present) ↦
          subst (λ (s : After C). IsSound capacity s.1 s.0) (sym (reused existing present))
            (subst (λ n. IsSound capacity n touched) (sym fresh-last_used)
              (record {
                kept =
                    touch-IsKept key _ existing clock c sound.kept present name
                      (record_of-IsStamped now (lookup key c.meta) late) fresh-last_used;
                within = sound.within;
              }))
      | inl absent ↦
          subst (λ (s : After C). IsSound capacity s.1 s.0) (sym (stored_new absent))
            (subst (λ n. IsSound capacity n (evict capacity with_new)) (sym fresh-last_used)
              (elim (Bool-cases (ltb (length c.hot) capacity)) [
                | inl room ↦
                    subst (IsSound capacity (clock + 1)) (sym (evict_room (ltb→lt _ _ room)))
                      (record {
                        kept = with_new-IsKept;
                        within = omega (arith, ltb→lt _ _ room, length-put key client c.hot);
                      })
                | inr no_room ↦
                    let full = full_of no_room in
                    subst (IsSound capacity (clock + 1)) (sym (evict_full absent full)) (record {
                      kept = forget-IsKept _ (clock + 1) with_new with_new-IsKept;
                      within = length-forget absent full;
                    })
              ]))
    ]

    abbrev IsNewest : Cache C → Type 0
    IsNewest d = (lookup key d.hot ≡ some client) × (lookup key d.meta ≡ some fresh)

    with_new-IsNewest : IsNewest with_new
    with_new-IsNewest = (
      ground (arith, lookup-put key key client c.hot, text_eq_refl key),
      ground (arith, lookup-put key key fresh c.meta, text_eq_refl key),
    )

    forget-IsNewest : (oldest : Text) → oldest ≢ key → IsNewest (forget oldest with_new)
    unfolding forget
    forget-IsNewest oldest other = (
      ground (
        arith,
        lookup-delete key oldest with_new.hot,
        text_eq_iff oldest key,
        other,
        with_new-IsNewest.0,
      ),
      ground (
        arith,
        lookup-delete key oldest with_new.meta,
        text_eq_iff oldest key,
        other,
        with_new-IsNewest.1,
      ),
    )

    -- A new client stays, with the time of its store.
    pub store-IsNewest : lookup key c.hot ≡ none → IsNewest stored.0
    store-IsNewest absent =
        subst (λ (s : After C). IsNewest s.0) (sym (stored_new absent))
          (elim (Bool-cases (ltb (length c.hot) capacity)) [
            | inl room ↦ subst IsNewest (sym (evict_room (ltb→lt _ _ room))) with_new-IsNewest
            | inr no_room ↦
                let full = full_of no_room in
                subst IsNewest (sym (evict_full absent full))
                  (forget-IsNewest (oldest absent full).0 (oldest-ne-key absent full))
          ])

    pub store_clock : stored.1 ≡ clock + 1
    store_clock = elim (Option-cases (lookup key c.hot)) [
      | inl absent ↦ ap (λ (s : After C). s.1) (stored_new absent) ∙ fresh-last_used
      | inr (existing, present) ↦
          ap (λ (s : After C). s.1) (reused existing present) ∙ fresh-last_used
    ]

    -- A client that a store adds is found under its key while it is younger than the lifetime, and never
    -- afterwards.
    pub from_cache-store :
        (ttl at : ℕ)
        → lookup key c.hot ≡ none
        → (from_cache ttl at key stored.1 stored.0).2
          ≡ (if leb ttl (at - now) then none else some client)
    unfolding from_cache record_of
    from_cache-store ttl at absent =
        let newest = store-IsNewest absent in rw (newest.0, newest.1, from_cache) (ground arith)
