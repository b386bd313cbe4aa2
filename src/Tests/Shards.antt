-- ===== src/Tests/Shards.antt =====
-- Tests of tenant/authority.go: a slice of two endpoints, one of them named twice.
use provider_databricks.Prelude.{
  ◌≡◌, ◌↔◌, refl, false, [], ◌∷◌, List, Text, runes, is_empty, text_eq, ok, IsIn,
}
use provider_databricks.Tenant.Shards.{
  SliceAuthority, ShardApi, new_slice_authority, cluster_client, ready, slice_endpoint_urls,
}
use provider_databricks.Tenant.Shards.Known.{
  IsKnown, Reach, here, next, ask_ready, ask_client, Reach-IsKnown, Reach-urls,
}
use provider_databricks.Tenant.Shards.Urls.{
  AreDistinct, IsPublished, slice_endpoint_urls-IsPublished,
}

abbrev endpoints : List Text
endpoints = runes " https://a/ " ∷ runes "" ∷ runes "https://b" ∷ runes "https://a" ∷ []

-- Cluster `t` is on the second shard; a client is the host that it talks to.
abbrev outside : ShardApi Text
outside = record {
  get_slice = ok endpoints;
  probe = λ shard_url cluster_id. text_eq shard_url (runes "https://b");
  new_client = λ host. ok host;
  slice_name = runes "databricks";
  quote = λ t. t;
}

-- The slice after a third shard was added.
abbrev outside_later : ShardApi Text
outside_later = record outside { get_slice = ok (runes "https://c" ∷ endpoints) }

abbrev asked : SliceAuthority Text
asked = (cluster_client outside 9 (runes "t") new_slice_authority).0

asked-Reach : Reach new_slice_authority asked
asked-Reach = next here (ask_client outside 9 (runes "t"))

asked-client :
    (cluster_client outside 9 (runes "t") new_slice_authority).1 ≡ ok (runes "https://b/clusters/t")
unfolding cluster_client text_eq
asked-client = refl

Reach-IsKnown_example : IsKnown asked
Reach-IsKnown_example = Reach-IsKnown asked-Reach

asked-nonempty : is_empty asked.shard_urls ≡ false
unfolding cluster_client text_eq
asked-nonempty = refl

Reach-urls_example : (ready outside_later 10 asked).0.shard_urls ≡ asked.shard_urls
Reach-urls_example = Reach-urls asked-nonempty (next here (ask_ready outside_later 10))

slice_endpoint_urls-IsPublished_example :
    AreDistinct (slice_endpoint_urls endpoints)
    × ((url : Text)
        → IsIn url (slice_endpoint_urls endpoints)
          ↔ (IsPublished url endpoints × (is_empty url ≡ false)))
slice_endpoint_urls-IsPublished_example = slice_endpoint_urls-IsPublished endpoints
