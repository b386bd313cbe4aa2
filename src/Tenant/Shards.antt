-- ===== src/Tenant/Shards.antt =====
-- tenant/authority.go: SliceAuthority, which finds the shard that serves a tenant's logical cluster and
-- keeps clients with the provider's credential for it.
pub mod Known
pub mod Urls
use provider_databricks.Prelude.{
  ℕ, ◌+◌, ◌-◌, ◌*◌, ◌^◌, ltb, leb, ◌==◌, if◌then◌else◌, Bool, true, false, not, ◌&&◌, ◌||◌, List,
  [], ◌∷◌, ◌++◌, Option, none, some, Text, runes, is_empty, length, contains, trim_space, itoa,
  Result, ok, err, ◌>>=◌, ◌>>◌,
}
use provider_databricks.Prelude.Maps.{Map, lookup, put}
use provider_databricks.Failure.{Failure, plain, wrapped}
use provider_databricks.Hosts.{trim_right_of}
use provider_databricks.Backend.Urls.{is_slash}

-- Ten seconds, in nanoseconds.
abbrev pub slice_refresh_interval : ℕ
slice_refresh_interval = 10 * 10 ^ 9

abbrev pub authority_client_cache_cap : ℕ
authority_client_cache_cap = 256

abbrev pub no_endpoints : Failure
no_endpoints = plain (runes "APIExportEndpointSlice has no endpoint with a url yet")

-- The fields that change. `C` is the type of clients.
pub record SliceAuthority (C : Type 0) : Type 0 where
  pub shard_urls : List Text
  pub cluster_shard : Map Text
  pub clients : Map C
  pub last_refresh : ℕ

-- What the authority calls: the endpoint slice, by the `url` of each endpoint, empty where it is no
-- string; whether a shard answers for a cluster; a client for a host; `%q`.
pub record ShardApi (C : Type 0) : Type 0 where
  pub get_slice : Result Failure (List Text)
  pub probe : (shard_url cluster_id : Text) → Bool
  pub new_client : (host : Text) → Result Failure C
  pub slice_name : Text
  pub quote : Text → Text

-- The loop of `SliceEndpointURLs`, with the URLs that it has seen.
unfoldable pub kept_urls : (seen : List Text) → List Text → List Text
unfolding trim_space trim_right_of contains
kept_urls seen [] = []
kept_urls seen (raw ∷ endpoints) =
    let trimmed = trim_right_of is_slash (trim_space raw) in
    let skipped = is_empty trimmed || contains trimmed seen in
    let rest = kept_urls (if skipped then seen else trimmed ∷ seen) endpoints in
    if skipped then rest else trimmed ∷ rest

unfoldable pub slice_endpoint_urls : List Text → List Text
unfolding kept_urls
slice_endpoint_urls endpoints = kept_urls [] endpoints

-- The part before the first `|`, where there is one.
unfoldable pub before_bar : Text → Option Text
before_bar [] = none
before_bar (c ∷ s) =
    let rest = before_bar s in
    if c == b'|' then some [] else elim rest [ none ↦ none | some t ↦ some (c ∷ t) ]

-- The clusters whose shard is known.
unfoldable pub keep_bindings : List Text → Map Text → Map Text
unfolding contains
keep_bindings urls [] = []
keep_bindings urls ((cluster, shard_url) ∷ bindings) =
    let rest = keep_bindings urls bindings in
    if contains shard_url urls then (cluster, shard_url) ∷ rest else rest

-- A key whose shard is not known.
abbrev pub is_vanished : List Text → Text → Bool
is_vanished urls key = elim (before_bar key) [
  | none ↦ false
  | some shard_url ↦ not (contains shard_url urls)
]

module _ {C : Type 0} where
  unfoldable pub keep_clients : List Text → Map C → Map C
  unfolding contains before_bar
  keep_clients urls [] = []
  keep_clients urls ((key, client) ∷ clients) =
      let rest = keep_clients urls clients in
      if is_vanished urls key then rest else (key, client) ∷ rest

  abbrev refreshed : List Text → ℕ → SliceAuthority C → SliceAuthority C
  refreshed urls now a = record {
    shard_urls = urls;
    cluster_shard = keep_bindings urls a.cluster_shard;
    clients = keep_clients urls a.clients;
    last_refresh = now;
  }

  abbrev with_client : Text → C → SliceAuthority C → SliceAuthority C
  with_client key client a = record a {
    clients =
        put key client
          (if leb authority_client_cache_cap (length a.clients) then [] else a.clients);
  }

  module _ (api : ShardApi C) where
    -- A nil error is `none`.
    unfoldable pub refresh_shards :
        (force : Bool) → (now : ℕ) → SliceAuthority C → SliceAuthority C × Option Failure
    unfolding slice_endpoint_urls keep_bindings keep_clients
    refresh_shards force now a =
        if not force && ltb (now - a.last_refresh) slice_refresh_interval
        then (a, none)
        else elim api.get_slice [
          | err e ↦ (
            a,
            some (
                wrapped
                  (runes "reading APIExportEndpointSlice "
                    ++ (api.quote api.slice_name ++ runes ": "))
                  e),
          )
          | ok endpoints ↦
              let urls = slice_endpoint_urls endpoints in
              if is_empty urls then (a, some no_endpoints) else (refreshed urls now a, none)
        ]

    unfoldable pub ready : (now : ℕ) → SliceAuthority C → SliceAuthority C × Bool
    unfolding refresh_shards
    ready now a =
        if not (is_empty a.shard_urls)
        then (a, true)
        else let outcome = refresh_shards true now a in
          (outcome.0, elim outcome.1 [ none ↦ true | some _ ↦ false ])

    -- The first shard that answers.
    unfoldable pub first_answer : List Text → (cluster_id : Text) → Option Text
    first_answer [] cluster_id = none
    first_answer (shard_url ∷ shards) cluster_id =
        let rest = first_answer shards cluster_id in
        if api.probe shard_url cluster_id then some shard_url else rest

    abbrev unserved : Text → ℕ → Failure
    unserved cluster_id shards = plain (
        runes "tenant workspace "
        ++ (api.quote cluster_id
            ++ (runes " is not served by any of the "
                ++ (itoa shards ++ runes " APIExport virtual workspace endpoints"))))

    -- The switch of `shardFor` on the known shards.
    unfoldable pub pick_shard :
        List Text → (cluster_id : Text) → SliceAuthority C → SliceAuthority C × Result Failure Text
    unfolding first_answer put itoa
    pick_shard [] cluster_id a = (a, err no_endpoints)
    pick_shard (only ∷ []) cluster_id a = (a, ok only)
    pick_shard (first ∷ second ∷ shards) cluster_id a =
        elim (first_answer (first ∷ second ∷ shards) cluster_id) [
          | none ↦ (a, err (unserved cluster_id (length (first ∷ second ∷ shards))))
          | some shard_url ↦
              (record a { cluster_shard = put cluster_id shard_url a.cluster_shard }, ok shard_url)
        ]

    unfoldable pub shard_for :
        (now : ℕ) → (cluster_id : Text) → SliceAuthority C → SliceAuthority C × Result Failure Text
    unfolding lookup refresh_shards pick_shard
    shard_for now cluster_id a = elim (lookup cluster_id a.cluster_shard) [
      | some url ↦ (a, ok url)
      | none ↦
          if is_empty a.shard_urls
          then (let outcome = refresh_shards true now a in
              elim outcome.1 [
                | some e ↦ (outcome.0, err e)
                | none ↦ pick_shard outcome.0.shard_urls cluster_id outcome.0
              ])
          else pick_shard a.shard_urls cluster_id a
    ]

    -- The rest of `ClusterClient`, once the shard is known.
    unfoldable pub client_on :
        (shard_url cluster_id : Text) → SliceAuthority C → SliceAuthority C × Result Failure C
    unfolding lookup put
    client_on shard_url cluster_id a =
        let key = shard_url ++ (runes "|" ++ cluster_id) in
        elim (lookup key a.clients) [
          | some client ↦ (a, ok client)
          | none ↦ elim (api.new_client (shard_url ++ (runes "/clusters/" ++ cluster_id))) [
            | err e ↦ (
              a,
              err (
                  wrapped
                    (runes "provider authority client for cluster "
                      ++ (api.quote cluster_id ++ runes ": "))
                    e),
            )
            | ok client ↦ (with_client key client a, ok client)
          ]
        ]

    unfoldable pub cluster_client :
        (now : ℕ) → (cluster_id : Text) → SliceAuthority C → SliceAuthority C × Result Failure C
    unfolding shard_for client_on
    cluster_client now cluster_id a =
        let found = shard_for now cluster_id a in
        elim found.1 [
          | err e ↦ (found.0, err e)
          | ok shard_url ↦ client_on shard_url cluster_id found.0
        ]

abbrev pub new_slice_authority : {C : Type 0} → SliceAuthority C
new_slice_authority = record { shard_urls = []; cluster_shard = []; clients = []; last_refresh = 0 }
