-- ===== src/Tenant/Clients/Keys.antt =====
-- The keys of the client caches of tenant/client.go: a cluster, a colon, and the first eight bytes of
-- the token's SHA-256 in hexadecimal.
use provider_databricks.Prelude.{
  ℕ, ◌*◌, ◌≤◌, ◌≡◌, refl, ap, ap₂, false, List, [], ◌∷◌, ◌++◌, arith, Text, is_empty, length,
  length-append, length-take, take,
}
use provider_databricks.Tenant.Clients.{TextApi, hex, hash_token, cache_key}

length-hex : (bytes : List ℕ) → length (hex bytes) ≡ 2 * length bytes
unfolding hex
length-hex [] = refl
length-hex (b ∷ bytes) = omega (arith, length-hex bytes)

tail : Text → Text
tail [] = []
tail (c ∷ s) = s

head_or : Text → ℕ
head_or [] = 0
head_or (c ∷ s) = c

append_cancel : (s t u v : Text) → s ++ u ≡ t ++ v → length u ≡ length v → (s ≡ t) × (u ≡ v)
unfolding tail head_or
append_cancel [] [] u v same long = (refl, same)
append_cancel [] (c ∷ t) u v same long =
    absurd (omega (arith, ap length same, long, length-append (c ∷ t) v))
append_cancel (c ∷ s) [] u v same long =
    absurd (omega (arith, ap length same, long, length-append (c ∷ s) u))
append_cancel (c ∷ s) (d ∷ t) u v same long =
    let rest = append_cancel s t u v (ap tail same) long in
    (ap₂ (λ x y. x ∷ y) (ap head_or same) rest.0, rest.1)

module _ (api : TextApi) where
  pub cache_key_named :
      (cluster_id token : Text) → is_empty (cache_key api cluster_id token) ≡ false
  cache_key_named [] token = refl
  cache_key_named (c ∷ cluster_id) token = refl

  module _ (long : (token : Text) → 8 ≤ length (api.sha256 token)) where
    length-hash_token : (token : Text) → length (hash_token api token) ≡ 16
    unfolding hash_token
    length-hash_token token = omega (
      arith,
      length-hex (take 8 (api.sha256 token)),
      length-take 8 (api.sha256 token),
      long token,
    )

    -- A key tells the cluster, however many colons are in it, and the hash.
    pub cache_key-injective :
        (c d : Text) (t u : Text)
        → cache_key api c t ≡ cache_key api d u
        → (c ≡ d) × (hash_token api t ≡ hash_token api u)
    unfolding tail
    cache_key-injective c d t u same =
        let parts =
          append_cancel c d (b':' ∷ hash_token api t) (b':' ∷ hash_token api u) same
            (omega (arith, length-hash_token t, length-hash_token u)) in
        (parts.0, ap tail parts.1)
