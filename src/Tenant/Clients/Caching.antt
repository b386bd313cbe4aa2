-- ===== src/Tenant/Clients/Caching.antt =====
-- The client cache of tenant/client.go. ClientFactory keeps two, for dynamic and for authorization
-- clients, with the same code for each; time is counted in nanoseconds since Go's zero time.
pub mod Oldest
pub mod Kept
pub mod Held
pub mod Hits
pub mod Stores
use provider_databricks.Prelude.{
  ℕ, zero, suc, ◌+◌, ◌-◌, ◌%◌, ◌^◌, ltb, leb, ◌==◌, if◌then◌else◌, ◌||◌, List, [], ◌∷◌, Option,
  none, some, Text, is_empty, length,
}
use provider_databricks.Prelude.Maps.{Map, lookup, put, delete, keys}

-- `cacheRecord`
pub record CacheRecord : Type 0 where
  pub created_at : ℕ
  pub last_used : ℕ

-- `hot` with `hotMeta`, or `authHot` with `authMeta`.
pub record Cache (C : Type 0) : Type 0 where
  pub hot : Map C
  pub meta : Map CacheRecord

abbrev pub empty_cache : {C : Type 0} → Cache C
empty_cache = record { hot = []; meta = [] }

-- The clock is a `uint64`.
unfoldable pub next_clock : ℕ → ℕ
next_clock clock = (clock + 1) % 2 ^ 64

-- `record := f.hotMeta[key]; if record.createdAt.IsZero() { record.createdAt = now }`
unfoldable pub record_of : (now : ℕ) → Option CacheRecord → CacheRecord
record_of now none = record { created_at = now; last_used = 0 }
record_of now (some found) =
    if found.created_at == 0 then record found { created_at = now } else found

-- The loop of `oldestCacheKey`.
unfoldable pub oldest_from : (best : Text) → (oldest : ℕ) → Map CacheRecord → Text × ℕ
oldest_from best oldest [] = (best, oldest)
oldest_from best oldest ((key, found) ∷ records) =
    let better = is_empty best || ltb found.last_used oldest in
    oldest_from (if better then key else best) (if better then found.last_used else oldest) records

unfoldable pub oldest_cache_key : Map CacheRecord → Text × ℕ
unfolding oldest_from
oldest_cache_key records = oldest_from [] 0 records

-- The loop that gives a record to each client without one.
unfoldable pub fill_records :
    (now : ℕ) → List Text → (clock : ℕ) → Map CacheRecord → Map CacheRecord × ℕ
unfolding lookup put next_clock
fill_records now [] clock records = (records, clock)
fill_records now (key ∷ rest) clock records = elim (lookup key records) [
  | some _ ↦ fill_records now rest clock records
  | none ↦
      fill_records now rest (next_clock clock)
        (put key (record { created_at = now; last_used = next_clock clock }) records)
]

module _ {C : Type 0} where
  unfoldable pub forget : Text → Cache C → Cache C
  unfolding delete
  forget key c = record { hot = delete key c.hot; meta = delete key c.meta }

  -- The loop of the eviction; each round takes a record away.
  unfoldable pub evict_from : (fuel capacity : ℕ) → Cache C → Cache C
  unfolding oldest_cache_key forget
  evict_from zero capacity c = c
  evict_from (suc fuel) capacity c =
      let oldest = (oldest_cache_key c.meta).0 in
      let rest = evict_from fuel capacity (forget oldest c) in
      if ltb capacity (length c.hot) then (if is_empty oldest then c else rest) else c

  unfoldable pub evict : (capacity : ℕ) → Cache C → Cache C
  unfolding evict_from
  evict capacity c = evict_from (length c.meta) capacity c

  -- The state after, the clock after, and the client.
  unfoldable pub from_cache : (ttl now : ℕ) → Text → ℕ → Cache C → Cache C × ℕ × Option C
  unfolding lookup put record_of next_clock forget
  from_cache ttl now key clock c = elim (lookup key c.hot) [
    | none ↦ (c, clock, none)
    | some client ↦
        let found = record_of now (lookup key c.meta) in
        if leb ttl (now - found.created_at) then (forget key c, clock, none) else (
          record c { meta = put key (record found { last_used = next_clock clock }) c.meta },
          next_clock clock,
          some client,
        )
  ]

  -- The rest of a store, once every client has its record.
  unfoldable pub store_filled :
      (capacity now : ℕ) → Text → C → (clock : ℕ) → Cache C → Cache C × ℕ × C
  unfolding lookup put record_of next_clock evict
  store_filled capacity now key client clock c = elim (lookup key c.hot) [
    | some existing ↦
        let found = record_of now (lookup key c.meta) in
        (
          record c { meta = put key (record found { last_used = next_clock clock }) c.meta },
          next_clock clock,
          existing,
        )
    | none ↦
        let fresh : CacheRecord = record { created_at = now; last_used = next_clock clock } in
        (
          evict capacity (record { hot = put key client c.hot; meta = put key fresh c.meta }),
          next_clock clock,
          client,
        )
  ]

  -- The state after, the clock after, and the client that the caller uses.
  unfoldable pub store : (capacity now : ℕ) → Text → C → (clock : ℕ) → Cache C → Cache C × ℕ × C
  unfolding fill_records store_filled
  store capacity now key client clock c =
      let filled = fill_records now (keys c.hot) clock c.meta in
      store_filled capacity now key client filled.1 (record c { meta = filled.0 })
