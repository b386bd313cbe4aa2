-- ===== src/Tenant/Clients/Caching/Oldest.antt =====
-- `oldestCacheKey` of tenant/client.go, and the loop that evicts by it.
use provider_databricks.Prelude.{
  ℕ, ◌+◌, ◌≤◌, ◌<◌, ltb, Bool-cases, ◌≡◌, refl, sym, subst, ◌⊎◌, inl, inr, true, false, [], ◌∷◌,
  ◌++◌, some, arith, Text, text_eq, text_eq_iff, false≢true, ◌∙◌, is_empty, length, All, All-append,
  not_ltb→le, ltb→lt,
}
use provider_databricks.Prelude.Maps.{Map, lookup}
use provider_databricks.Tenant.Clients.Caching.{CacheRecord, oldest_from, oldest_cache_key}

-- A map has a record of the key with that last use.
abbrev pub HasRecord : Text → ℕ → Map CacheRecord → Type 0
HasRecord key used [] = ⊥
HasRecord key used ((j, found) ∷ records) =
    ((j ≡ key) × (found.last_used ≡ used)) ⊎ HasRecord key used records

abbrev pub IsNamed : Text × CacheRecord → Type 0
IsNamed entry = is_empty entry.0 ≡ false

abbrev pub IsUsedFrom : ℕ → Text × CacheRecord → Type 0
IsUsedFrom used entry = used ≤ entry.1.last_used

abbrev pub IsUsedUntil : ℕ → Text × CacheRecord → Type 0
IsUsedUntil clock entry = entry.1.last_used ≤ clock

pub IsUsedFrom-mono :
    (a b : ℕ) (records : Map CacheRecord)
    → a ≤ b
    → All (IsUsedFrom b) records
    → All (IsUsedFrom a) records
IsUsedFrom-mono a b [] h all = tt
IsUsedFrom-mono a b (entry ∷ records) h all =
    (omega (arith, all.0), IsUsedFrom-mono a b records h all.1)

pub IsUsedUntil-mono :
    (a b : ℕ) (records : Map CacheRecord)
    → a ≤ b
    → All (IsUsedUntil a) records
    → All (IsUsedUntil b) records
IsUsedUntil-mono a b [] h all = tt
IsUsedUntil-mono a b (entry ∷ records) h all =
    (omega (arith, all.0), IsUsedUntil-mono a b records h all.1)

-- The loop ends with the least of what it began with and what it saw.
abbrev FindsLeast : Text → ℕ → Map CacheRecord → Text × ℕ → Type 0
FindsLeast best oldest records found =
    (found.1 ≤ oldest)
    × All (IsUsedFrom found.1) records
    × (((found.0 ≡ best) × (found.1 ≡ oldest)) ⊎ HasRecord found.0 found.1 records)

module _ (best : Text) (oldest : ℕ) (key : Text) (found : CacheRecord) (records : Map CacheRecord)
    (named : is_empty best ≡ false) where
  oldest_from_newer :
      ltb found.last_used oldest ≡ true
      → oldest_from best oldest ((key, found) ∷ records) ≡ oldest_from key found.last_used records
  unfolding oldest_from
  oldest_from_newer newer = rw (named, newer) refl

  oldest_from_older :
      ltb found.last_used oldest ≡ false
      → oldest_from best oldest ((key, found) ∷ records) ≡ oldest_from best oldest records
  unfolding oldest_from
  oldest_from_older older = rw (named, older) refl

oldest_from-FindsLeast :
    (best : Text) (oldest : ℕ) (records : Map CacheRecord)
    → is_empty best ≡ false
    → All IsNamed records
    → FindsLeast best oldest records (oldest_from best oldest records)
unfolding oldest_from
oldest_from-FindsLeast best oldest [] h named = (omega arith, tt, inl (refl, refl))
oldest_from-FindsLeast best oldest ((key, found) ∷ records) h (name, named) =
    elim (Bool-cases (ltb found.last_used oldest)) [
      | inl newer ↦
          let least = oldest_from-FindsLeast key found.last_used records name named in
          subst (FindsLeast best oldest ((key, found) ∷ records))
            (sym (oldest_from_newer best oldest key found records h newer))
            (
              omega (arith, least.0, ltb→lt _ _ newer),
              (least.0, least.1),
              elim least.2 [
                | inl same ↦ inr (inl (sym same.0, sym same.1))
                | inr seen ↦ inr (inr seen)
              ],
            )
      | inr older ↦
          let least = oldest_from-FindsLeast best oldest records h named in
          subst (FindsLeast best oldest ((key, found) ∷ records))
            (sym (oldest_from_older best oldest key found records h older))
            (
              least.0,
              (omega (arith, least.0, not_ltb→le _ _ older), least.1),
              elim least.2 [ inl same ↦ inl same | inr seen ↦ inr (inr seen) ],
            )
    ]

-- Of records with keys that are not empty, the key that was used least recently.
abbrev pub IsOldest : Text → ℕ → Map CacheRecord → Type 0
IsOldest key used records = HasRecord key used records × All (IsUsedFrom used) records

pub oldest_cache_key-IsOldest :
    (key : Text) (found : CacheRecord) (records : Map CacheRecord)
    → All IsNamed ((key, found) ∷ records)
    → IsOldest
        (oldest_cache_key ((key, found) ∷ records)).0
        (oldest_cache_key ((key, found) ∷ records)).1
        ((key, found) ∷ records)
unfolding oldest_cache_key oldest_from
oldest_cache_key-IsOldest key found records (name, named) =
    let least = oldest_from-FindsLeast key found.last_used records name named in
    (
      elim least.2 [ inl same ↦ inl (sym same.0, sym same.1) | inr seen ↦ inr seen ],
      (least.0, least.1),
    )

pub HasRecord-lookup :
    (key : Text) (used : ℕ) (records : Map CacheRecord)
    → HasRecord key used records
    → (found : CacheRecord) × (lookup key records ≡ some found)
unfolding lookup
HasRecord-lookup key used [] h = elim h [ ]
HasRecord-lookup key used ((j, found) ∷ records) h = elim (Bool-cases (text_eq j key)) [
  | inl same ↦ (found, rw same refl)
  | inr other ↦ elim h [
    | inl e ↦ absurd (false≢true (sym other ∙ (text_eq_iff j key).1 e.0))
    | inr seen ↦
        let rest = HasRecord-lookup key used records seen in (rest.0, rw (other, rest.1) refl)
  ]
]

pub HasRecord-append :
    (key : Text) (used : ℕ) (records : Map CacheRecord) (last : Text × CacheRecord)
    → HasRecord key used (records ++ last ∷ [])
    → HasRecord key used records ⊎ ((last.0 ≡ key) × (last.1.last_used ≡ used))
HasRecord-append key used [] last (inl h) = inr h
HasRecord-append key used [] last (inr h) = elim h [ ]
HasRecord-append key used (entry ∷ records) last (inl h) = inl (inl h)
HasRecord-append key used (entry ∷ records) last (inr h) =
    elim (HasRecord-append key used records last h) [
      | inl seen ↦ inl (inr seen)
      | inr new ↦ inr new
    ]

pub HasRecord-named :
    (key : Text) (used : ℕ) (records : Map CacheRecord)
    → All IsNamed records
    → HasRecord key used records
    → is_empty key ≡ false
HasRecord-named key used [] named h = elim h [ ]
HasRecord-named key used (entry ∷ records) named (inl h) = rw (← h.0) named.0
HasRecord-named key used (entry ∷ records) named (inr h) =
    HasRecord-named key used records named.1 h

IsUsedFrom-init :
    (used : ℕ) (records : Map CacheRecord) (last : Text × CacheRecord)
    → All (IsUsedFrom used) (records ++ last ∷ [])
    → All (IsUsedFrom used) records
IsUsedFrom-init used [] last h = tt
IsUsedFrom-init used (r ∷ records) last (h, rest) = (h, IsUsedFrom-init used records last rest)

-- The record that was just added is not the oldest.
pub oldest_cache_key-append :
    (key : Text) (fresh : CacheRecord) (clock : ℕ) (records : Map CacheRecord)
    → 0 < length records
    → All IsNamed records
    → is_empty key ≡ false
    → All (IsUsedUntil clock) records
    → fresh.last_used ≡ clock + 1
    → IsOldest
        (oldest_cache_key (records ++ (key, fresh) ∷ [])).0
        (oldest_cache_key (records ++ (key, fresh) ∷ [])).1
        records
oldest_cache_key-append key fresh clock [] some_kept named name used new = absurd (omega arith)
oldest_cache_key-append key fresh clock ((k, r) ∷ records) some_kept named name used new =
    let all_named = All-append IsNamed ((k, r) ∷ records) ((key, fresh) ∷ []) named (name, tt) in
    let oldest = oldest_cache_key-IsOldest k r (records ++ (key, fresh) ∷ []) all_named in
    (
      elim (HasRecord-append _ _ ((k, r) ∷ records) (key, fresh) oldest.0) [
        | inl before ↦ before
        | inr last ↦ absurd (omega (arith, last.1, oldest.1.0, used.0, new))
      ],
      IsUsedFrom-init _ ((k, r) ∷ records) (key, fresh) oldest.1,
    )
