-- ===== src/Tenant/Shards/Known.antt =====
-- What SliceAuthority of tenant/authority.go knows, call after call.
use provider_databricks.Prelude.{
  ℕ, ◌-◌, ◌≤◌, ltb, leb, Bool-cases, Option-cases, Bool, true, false, not, ◌&&◌, ◌≡◌, ◌∙◌, refl,
  sym, subst, inl, inr, List, [], ◌∷◌, ◌++◌, some, some-injective, some≢none, arith, Text, runes,
  is_empty, length, contains, contains_iff, IsIn, All, Result-cases, not_leb→lt,
}
use provider_databricks.Prelude.Maps.{Map, lookup, put-All, length-put}
use provider_databricks.Tenant.Shards.{
  SliceAuthority, ShardApi, keep_bindings, keep_clients, is_vanished, slice_endpoint_urls,
  refresh_shards, ready, first_answer, pick_shard, shard_for, client_on, cluster_client,
  new_slice_authority, refreshed, with_client, authority_client_cache_cap, slice_refresh_interval,
}

keep_bindings-bound :
    (urls : List Text) (bindings : Map Text)
    → All (λ binding. IsIn binding.1 urls) (keep_bindings urls bindings)
unfolding keep_bindings
keep_bindings-bound urls [] = tt
keep_bindings-bound urls ((cluster, shard_url) ∷ bindings) =
    elim (Bool-cases (contains shard_url urls)) [
      | inl known ↦
          rw known ((contains_iff shard_url urls).0 known, keep_bindings-bound urls bindings)
      | inr gone ↦ rw gone (keep_bindings-bound urls bindings)
    ]

module _ {C : Type 0} where
  -- Every cluster is bound to a known shard, and there are at most 256 clients.
  pub record IsKnown (a : SliceAuthority C) : Type 0 where
    pub bound : All (λ binding. IsIn binding.1 a.shard_urls) a.cluster_shard
    pub few : length a.clients ≤ authority_client_cache_cap

  length-keep_clients :
      (urls : List Text) (clients : Map C) → length (keep_clients urls clients) ≤ length clients
  unfolding keep_clients
  length-keep_clients urls [] = omega arith
  length-keep_clients urls ((key, client) ∷ clients) = elim (Bool-cases (is_vanished urls key)) [
    | inl gone ↦ rw gone (omega (arith, length-keep_clients urls clients))
    | inr stays ↦ rw stays (omega (arith, length-keep_clients urls clients))
  ]

  refreshed-IsKnown :
      (urls : List Text) (now : ℕ) (a : SliceAuthority C)
      → IsKnown a
      → IsKnown (refreshed urls now a)
  refreshed-IsKnown urls now a known = record {
    bound = keep_bindings-bound urls a.cluster_shard;
    few = omega (arith, length-keep_clients urls a.clients, known.few);
  }

  length-with_client :
      (key : Text) (client : C) (a : SliceAuthority C)
      → length a.clients ≤ authority_client_cache_cap
      → length (with_client key client a).clients ≤ authority_client_cache_cap
  length-with_client key client a few =
      elim (Bool-cases (leb authority_client_cache_cap (length a.clients))) [
        | inl full ↦ rw full (omega (arith, length-put key client []))
        | inr room ↦ rw room (omega (arith, not_leb→lt _ _ room, length-put key client a.clients))
      ]

  module _ (api : ShardApi C) where
    refresh_shards-IsKnown :
        (force : Bool) (now : ℕ) (a : SliceAuthority C)
        → IsKnown a
        → IsKnown (refresh_shards api force now a).0
    unfolding refresh_shards
    refresh_shards-IsKnown force now a known =
        elim (Bool-cases (not force && ltb (now - a.last_refresh) slice_refresh_interval)) [
          | inl recent ↦ rw (recent, refresh_shards) known
          | inr due ↦ elim (Result-cases api.get_slice) [
            | inr (e, failed) ↦ rw (due, failed, refresh_shards) known
            | inl (endpoints, read) ↦ elim (Bool-cases (is_empty (slice_endpoint_urls endpoints))) [
              | inl empty ↦ rw (due, read, empty, refresh_shards) known
              | inr urls ↦
                  rw (due, read, urls, refresh_shards)
                    (refreshed-IsKnown (slice_endpoint_urls endpoints) now a known)
            ]
          ]
        ]

    first_answer-IsIn :
        (shards : List Text) (cluster_id shard_url : Text)
        → first_answer api shards cluster_id ≡ some shard_url
        → IsIn shard_url shards
    unfolding first_answer
    first_answer-IsIn [] cluster_id shard_url h = absurd (some≢none (sym h))
    first_answer-IsIn (shard ∷ shards) cluster_id shard_url h =
        elim (Bool-cases (api.probe shard cluster_id)) [
          | inl answers ↦
              let same : some shard ≡ some shard_url = rw (answers, first_answer) at h in
              inl (sym (some-injective same))
          | inr silent ↦
              let rest : first_answer api shards cluster_id ≡ some shard_url =
                rw (silent, first_answer) at h in
              inr (first_answer-IsIn shards cluster_id shard_url rest)
        ]

    pick_shard-IsKnown :
        (shards : List Text) (cluster_id : Text) (a : SliceAuthority C)
        → shards ≡ a.shard_urls
        → IsKnown a
        → IsKnown (pick_shard api shards cluster_id a).0
    unfolding pick_shard
    pick_shard-IsKnown [] cluster_id a same known = known
    pick_shard-IsKnown (only ∷ []) cluster_id a same known = known
    pick_shard-IsKnown (first ∷ second ∷ shards) cluster_id a same known =
        elim (Option-cases (first_answer api (first ∷ second ∷ shards) cluster_id)) [
          | inl silent ↦ rw (silent, pick_shard) known
          | inr (shard_url, answers) ↦
              rw (answers, pick_shard)
                (record {
                  bound =
                      put-All (λ binding. IsIn binding.1 a.shard_urls) cluster_id shard_url
                        a.cluster_shard
                        (subst (IsIn shard_url) same (
                          first_answer-IsIn (first ∷ second ∷ shards) cluster_id shard_url answers))
                        known.bound;
                  few = known.few;
                })
        ]

    shard_for-IsKnown :
        (now : ℕ) (cluster_id : Text) (a : SliceAuthority C)
        → IsKnown a
        → IsKnown (shard_for api now cluster_id a).0
    unfolding shard_for
    shard_for-IsKnown now cluster_id a known =
        elim (Option-cases (lookup cluster_id a.cluster_shard)) [
          | inr (url, cached) ↦ rw (cached, shard_for) known
          | inl uncached ↦ elim (Bool-cases (is_empty a.shard_urls)) [
            | inr some_shards ↦
                rw (uncached, some_shards, shard_for)
                  (pick_shard-IsKnown a.shard_urls cluster_id a refl known)
            | inl no_shards ↦ elim (Option-cases (refresh_shards api true now a).1) [
              | inl done ↦
                  rw (uncached, no_shards, done, shard_for)
                    (pick_shard-IsKnown (refresh_shards api true now a).0.shard_urls cluster_id
                      (refresh_shards api true now a).0 refl
                      (refresh_shards-IsKnown true now a known))
              | inr (e, failed) ↦
                  rw (uncached, no_shards, failed, shard_for)
                    (refresh_shards-IsKnown true now a known)
            ]
          ]
        ]

    client_on-IsKnown :
        (shard_url cluster_id : Text) (a : SliceAuthority C)
        → IsKnown a
        → IsKnown (client_on api shard_url cluster_id a).0
    unfolding client_on
    client_on-IsKnown shard_url cluster_id a known =
        let key = shard_url ++ (runes "|" ++ cluster_id) in
        elim (Option-cases (lookup key a.clients)) [
          | inr (client, cached) ↦ rw (cached, client_on) known
          | inl absent ↦
              elim (Result-cases
                (api.new_client (shard_url ++ (runes "/clusters/" ++ cluster_id)))) [
                  | inr (e, failed) ↦ rw (absent, failed, client_on) known
                  | inl (client, built) ↦
                      rw (absent, built, client_on)
                        (record {
                          bound = known.bound;
                          few = length-with_client key client a known.few;
                        })
                ]
        ]

    cluster_client-IsKnown :
        (now : ℕ) (cluster_id : Text) (a : SliceAuthority C)
        → IsKnown a
        → IsKnown (cluster_client api now cluster_id a).0
    unfolding cluster_client
    cluster_client-IsKnown now cluster_id a known =
        elim (Result-cases (shard_for api now cluster_id a).1) [
          | inr (e, failed) ↦ rw (failed, cluster_client) (shard_for-IsKnown now cluster_id a known)
          | inl (shard_url, found) ↦
              rw (found, cluster_client)
                (client_on-IsKnown shard_url cluster_id (shard_for api now cluster_id a).0
                  (shard_for-IsKnown now cluster_id a known))
        ]

    ready-IsKnown : (now : ℕ) (a : SliceAuthority C) → IsKnown a → IsKnown (ready api now a).0
    unfolding ready
    ready-IsKnown now a known = elim (Bool-cases (is_empty a.shard_urls)) [
      | inl no_shards ↦ rw (no_shards, ready) (refresh_shards-IsKnown true now a known)
      | inr some_shards ↦ rw (some_shards, ready) known
    ]

    pick_shard-urls :
        (shards : List Text) (cluster_id : Text) (a : SliceAuthority C)
        → (pick_shard api shards cluster_id a).0.shard_urls ≡ a.shard_urls
    unfolding pick_shard
    pick_shard-urls [] cluster_id a = refl
    pick_shard-urls (only ∷ []) cluster_id a = refl
    pick_shard-urls (first ∷ second ∷ shards) cluster_id a = ground arith

    shard_for-urls :
        (now : ℕ) (cluster_id : Text) (a : SliceAuthority C)
        → is_empty a.shard_urls ≡ false
        → (shard_for api now cluster_id a).0.shard_urls ≡ a.shard_urls
    unfolding shard_for
    shard_for-urls now cluster_id a some_shards =
        elim (Option-cases (lookup cluster_id a.cluster_shard)) [
          | inr (url, cached) ↦ rw (cached, shard_for) refl
          | inl uncached ↦
              rw (uncached, some_shards, shard_for) (pick_shard-urls a.shard_urls cluster_id a)
        ]

    client_on-urls :
        (shard_url cluster_id : Text) (a : SliceAuthority C)
        → (client_on api shard_url cluster_id a).0.shard_urls ≡ a.shard_urls
    unfolding client_on
    client_on-urls shard_url cluster_id a = ground arith

    cluster_client-urls :
        (now : ℕ) (cluster_id : Text) (a : SliceAuthority C)
        → is_empty a.shard_urls ≡ false
        → (cluster_client api now cluster_id a).0.shard_urls ≡ a.shard_urls
    unfolding cluster_client
    cluster_client-urls now cluster_id a some_shards =
        elim (Result-cases (shard_for api now cluster_id a).1) [
          | inr (e, failed) ↦
              rw (failed, cluster_client) (shard_for-urls now cluster_id a some_shards)
          | inl (shard_url, found) ↦
              rw (found, cluster_client)
                (client_on-urls shard_url cluster_id (shard_for api now cluster_id a).0
                  ∙ shard_for-urls now cluster_id a some_shards)
        ]

    ready-urls :
        (now : ℕ) (a : SliceAuthority C)
        → is_empty a.shard_urls ≡ false
        → (ready api now a).0.shard_urls ≡ a.shard_urls
    unfolding ready
    ready-urls now a some_shards = rw (some_shards, ready) refl

  -- One call, whatever the outside says at that time.
  pub data Call (a : SliceAuthority C) : SliceAuthority C → Type 0 where
    ask_ready : (api : ShardApi C) (now : ℕ) → Call a (ready api now a).0
    ask_client :
        (api : ShardApi C) (now : ℕ) (cluster_id : Text)
        → Call a (cluster_client api now cluster_id a).0

  pub data Reach (a : SliceAuthority C) : SliceAuthority C → Type 0 where
    here : Reach a a
    next : {b c : SliceAuthority C} → Reach a b → Call b c → Reach a c

  Call-IsKnown : {a b : SliceAuthority C} → IsKnown a → Call a b → IsKnown b
  Call-IsKnown {a} known (ask_ready api now) = ready-IsKnown api now a known
  Call-IsKnown {a} known (ask_client api now cluster_id) =
      cluster_client-IsKnown api now cluster_id a known

  -- After any sequence of calls of a new authority, every cluster is bound to a known shard and there
  -- are at most 256 clients.
  pub Reach-IsKnown : {a : SliceAuthority C} → Reach new_slice_authority a → IsKnown a
  Reach-IsKnown here = record { bound = tt; few = omega arith }
  Reach-IsKnown (next r call) = Call-IsKnown (Reach-IsKnown r) call

  Call-urls :
      {a b : SliceAuthority C}
      → is_empty a.shard_urls ≡ false
      → Call a b
      → b.shard_urls ≡ a.shard_urls
  Call-urls {a} h (ask_ready api now) = ready-urls api now a h
  Call-urls {a} h (ask_client api now cluster_id) = cluster_client-urls api now cluster_id a h

  -- Once a shard is known, no sequence of calls changes the known shards, whatever the slice says.
  pub Reach-urls :
      {a b : SliceAuthority C}
      → is_empty a.shard_urls ≡ false
      → Reach a b
      → b.shard_urls ≡ a.shard_urls
  Reach-urls h here = refl
  Reach-urls h (next r call) =
      let before = Reach-urls h r in
      Call-urls (subst (λ (urls : List Text). is_empty urls ≡ false) (sym before) h) call ∙ before
