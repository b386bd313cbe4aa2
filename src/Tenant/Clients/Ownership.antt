-- ===== src/Tenant/Clients/Ownership.antt =====
-- Whose clients ClientFactory of tenant/client.go keeps.
pub mod Dynamic
pub mod Authorization
pub mod Sequences
use provider_databricks.Prelude.{◌≡◌, Text, All, Result, ok}
use provider_databricks.Failure.{Failure}
use provider_databricks.Tenant.Clients.{TextApi, RestConfig, ClientFactory, cache_key, config_for}

abbrev pub state_of {ℓ κ} : {S : Type ℓ} {R : Type κ} → S × R → S
state_of pair = pair.0

abbrev pub answer_of {ℓ κ} : {S : Type ℓ} {R : Type κ} → S × R → R
answer_of pair = pair.1

module _ (api : TextApi) {K D A : Type 0} where
  -- The client was built for a caller in a cluster, under the configuration that is installed, and the
  -- key is that of the cluster and the caller's token.
  abbrev pub IsBuilt :
      {C : Type 0} → (RestConfig → Result Failure C) → ClientFactory K D A → Text × C → Type 0
  IsBuilt new f entry =
      (cluster_id : Text) × (token : Text) × (config : RestConfig) × (entry.0
        ≡ cache_key api cluster_id token)
      × (config_for api f cluster_id token ≡ ok config)
      × (new config ≡ ok entry.1)

  pub record IsOwned (new_dynamic : RestConfig → Result Failure D)
      (new_authorization : RestConfig → Result Failure A) (f : ClientFactory K D A) : Type 0 where
    pub dynamic_built : All (IsBuilt new_dynamic f) f.dynamic.hot
    pub authorization_built : All (IsBuilt new_authorization f) f.authorization.hot
