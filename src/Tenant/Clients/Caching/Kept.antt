-- ===== src/Tenant/Clients/Caching/Kept.antt =====
-- What the client cache of tenant/client.go keeps: a record for every client, with its times.
use provider_databricks.Prelude.{
  ℕ, zero, suc, ◌+◌, ◌^◌, ◌≤◌, ◌<◌, Bool-cases, ◌≡◌, refl, sym, subst, inl, inr, false, List, [],
  ◌∷◌, Option, none, some, arith, Text, text_eq, text_eq_iff, is_empty, length, All, le→not_ltb,
  lt→ltb, ◌∙◌,
}
use provider_databricks.Prelude.Maps.{
  Map, lookup, put, keys, put-All, delete-All, keys-put, keys-put_present, keys-delete, lookup-keys,
}
use provider_databricks.Tenant.Clients.Caching.{
  CacheRecord, Cache, next_clock, record_of, fill_records, oldest_cache_key, forget, evict_from,
  store_filled, store,
}
use provider_databricks.Tenant.Clients.Caching.Oldest.{IsNamed, IsUsedUntil, IsUsedUntil-mono}

pub next_clock_lem : (clock : ℕ) → clock + 1 < 2 ^ 64 → next_clock clock ≡ clock + 1
unfolding next_clock
next_clock_lem clock h = omega arith

-- Where every key has a record, nothing is filled in.
abbrev IsKeptIn : Map CacheRecord → Text → Type 0
IsKeptIn records k = (found : CacheRecord) × (lookup k records ≡ some found)

abbrev pub IsStamped : Text × CacheRecord → Type 0
IsStamped entry = 0 < entry.1.created_at

fill_records_none :
    (now : ℕ) (ks : List Text) (clock : ℕ) (records : Map CacheRecord)
    → All (IsKeptIn records) ks
    → fill_records now ks clock records ≡ (records, clock)
unfolding fill_records
fill_records_none now [] clock records h = refl
fill_records_none now (k ∷ ks) clock records (kept, h) =
    rw (kept.1, fill_records) (fill_records_none now ks clock records h)

kept_more :
    (j : Text) (r : CacheRecord) (ks : List Text) (records : Map CacheRecord)
    → All (IsKeptIn records) ks
    → All (IsKeptIn ((j, r) ∷ records)) ks
unfolding lookup
kept_more j r [] records h = tt
kept_more j r (k ∷ ks) records (kept, h) = (
  elim (Bool-cases (text_eq j k)) [
    | inl same ↦ (r, rw same refl)
    | inr other ↦ (kept.0, rw other kept.1)
  ],
  kept_more j r ks records h,
)

keys_kept : (records : Map CacheRecord) → All (IsKeptIn records) (keys records)
unfolding lookup
keys_kept [] = tt
keys_kept ((k, r) ∷ records) = (
  (r, rw ((text_eq_iff k k).1 refl) refl),
  kept_more k r (keys records) records (keys_kept records),
)

pub record_of-IsStamped :
    (now : ℕ) (found : Option CacheRecord) → 0 < now → 0 < (record_of now found).created_at
unfolding record_of
record_of-IsStamped now none h = h
record_of-IsStamped now (some found) h = ground arith

module _ {C : Type 0} where
  -- The two maps have the same keys, none of them empty; each record has its time and was used no later
  -- than the clock says.
  pub record IsKept (clock : ℕ) (c : Cache C) : Type 0 where
    pub same_keys : keys c.hot ≡ keys c.meta
    pub named : All IsNamed c.meta
    pub stamped : All IsStamped c.meta
    pub used : All (IsUsedUntil clock) c.meta

  -- And there are at most `capacity` clients.
  pub record IsSound (capacity clock : ℕ) (c : Cache C) : Type 0 where
    pub kept : IsKept clock c
    pub within : length c.hot ≤ capacity

  pub store_lem :
      (capacity now : ℕ) (key : Text) (client : C) (clock : ℕ) (c : Cache C)
      → keys c.hot ≡ keys c.meta
      → store capacity now key client clock c ≡ store_filled capacity now key client clock c
  unfolding store
  store_lem capacity now key client clock c same =
      rw
        (fill_records_none now (keys c.hot) clock c.meta
          (subst (All (IsKeptIn c.meta)) (sym same) (keys_kept c.meta)))
        refl

  pub forget-IsKept :
      (key : Text) (clock : ℕ) (c : Cache C) → IsKept clock c → IsKept clock (forget key c)
  unfolding forget
  forget-IsKept key clock c kept = record {
    same_keys = keys-delete key c.hot c.meta kept.same_keys;
    named = delete-All IsNamed key c.meta kept.named;
    stamped = delete-All IsStamped key c.meta kept.stamped;
    used = delete-All (IsUsedUntil clock) key c.meta kept.used;
  }

  -- A new last use.
  pub touch-IsKept :
      (key : Text) (found : CacheRecord) (client : C) (clock : ℕ) (c : Cache C)
      → IsKept clock c
      → lookup key c.hot ≡ some client
      → is_empty key ≡ false
      → 0 < found.created_at
      → found.last_used ≡ clock + 1
      → IsKept (clock + 1) (record c { meta = put key found c.meta })
  touch-IsKept key found client clock c kept present name stamp u = record {
    same_keys =
        kept.same_keys
        ∙ sym (
            keys-put_present key found
              (lookup-keys key client c.hot c.meta kept.same_keys present).0 c.meta
              (lookup-keys key client c.hot c.meta kept.same_keys present).1);
    named = put-All IsNamed key found c.meta name kept.named;
    stamped = put-All IsStamped key found c.meta stamp kept.stamped;
    used =
        put-All (IsUsedUntil (clock + 1)) key found c.meta (omega (arith, u))
          (IsUsedUntil-mono clock (clock + 1) c.meta (omega arith) kept.used);
  }

  -- A new client.
  abbrev pub added : Text → C → CacheRecord → Cache C → Cache C
  added key client fresh c = record { hot = put key client c.hot; meta = put key fresh c.meta }

  pub added-IsKept :
      (key : Text) (fresh : CacheRecord) (client : C) (clock : ℕ) (c : Cache C)
      → IsKept clock c
      → is_empty key ≡ false
      → 0 < fresh.created_at
      → fresh.last_used ≡ clock + 1
      → IsKept (clock + 1) (added key client fresh c)
  added-IsKept key fresh client clock c kept name stamp u = record {
    same_keys = keys-put key client fresh c.hot c.meta kept.same_keys;
    named = put-All IsNamed key fresh c.meta name kept.named;
    stamped = put-All IsStamped key fresh c.meta stamp kept.stamped;
    used =
        put-All (IsUsedUntil (clock + 1)) key fresh c.meta (omega (arith, u))
          (IsUsedUntil-mono clock (clock + 1) c.meta (omega arith) kept.used);
  }

  pub evict_from_room :
      (fuel capacity : ℕ) (c : Cache C) → length c.hot ≤ capacity → evict_from fuel capacity c ≡ c
  unfolding evict_from
  evict_from_room zero capacity c h = refl
  evict_from_room (suc fuel) capacity c h = rw (le→not_ltb capacity (length c.hot) h) refl

  -- Where one key too many is there and the oldest is taken away, the loop stops after one round.
  pub evict_from_once :
      (fuel capacity : ℕ) (c : Cache C)
      → capacity < length c.hot
      → is_empty (oldest_cache_key c.meta).0 ≡ false
      → length (forget (oldest_cache_key c.meta).0 c).hot ≤ capacity
      → evict_from (suc fuel) capacity c ≡ forget (oldest_cache_key c.meta).0 c
  unfolding evict_from
  evict_from_once fuel capacity c over name room =
      rw (lt→ltb capacity (length c.hot) over, name)
        (evict_from_room fuel capacity (forget (oldest_cache_key c.meta).0 c) room)
